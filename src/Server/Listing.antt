-- ===== src/Server/Listing.antt =====
-- server.rs: the observer's query `message/list`.
use hot_potato.Prelude.{
  ℕ, ◌+◌, ◌-◌, ◌*◌, ◌/◌, ◌==◌, ◌≤◌, ◌<◌, ◌↔◌, subst, some_inj, eq_iff, ltb, leb, ◌≡◌, refl, ap, ◌∙◌,
  inl, inr, String, Bool, true, false, ◌&&◌, Option, none, some, List, [], ◌∷◌, filter, length,
  drop, str_eq, if◌then◌else◌, Bool-cases, arith,
}
use hot_potato.Message.{Message, Time, status_debug}
use hot_potato.Sweeper.{nanos}

-- `fifo_last`: the last `limit` letters; 0 stands for all.
unfoldable pub fifo_last : List Message → ℕ → List Message
fifo_last msgs limit =
    if ltb 0 limit && ltb limit (length msgs) then drop (length msgs - limit) msgs else msgs

-- An `i64`: `negsuc n` is -(n + 1).
pub data ℤ : Type 0 where
  pos : ℕ → ℤ
  negsuc : ℕ → ℤ

-- The parameters of the query.
pub record Query : Type 0 where
  pub status : Option String
  pub limit : ℕ
  pub max_age_secs : Option ℤ
  pub max_hops : Option ℕ
  pub sender : Option String
  pub receiver : Option String

-- `if let Some(x) = filter { msgs.retain(|m| test(x, m)) }`.
abbrev pub retain_if : {X : Type 0} → (X → Message → Bool) → Option X → List Message → List Message
retain_if test none msgs = msgs
retain_if test (some x) msgs = filter (test x) msgs

-- `lower` is `to_lowercase` of the standard library.
abbrev pub has_status : (String → String) → String → Message → Bool
has_status lower s m = str_eq (lower (status_debug m.status)) (lower s)

-- `(now - m.created_at).num_seconds() <= age`, whose left side is cut towards 0.
abbrev pub is_younger : Time → ℤ → Message → Bool
is_younger now (pos age) m = leb ((now - m.created_at) / nanos) age
is_younger now (negsuc age) m = leb (age + 1) ((m.created_at - now) / nanos)

abbrev pub within_hops : ℕ → Message → Bool
within_hops h m = leb m.hops h

abbrev pub is_from : String → Message → Bool
is_from s m = str_eq m.sender s

abbrev pub is_for : String → Message → Bool
is_for r m = str_eq m.receiver r

-- The arm `message/list`, on the letters of the bus.
unfoldable pub list_letters : (String → String) → Time → Query → List Message → List Message
unfolding fifo_last
list_letters lower now q msgs =
    let by_status = retain_if (has_status lower) q.status msgs in
    let by_age = retain_if (is_younger now) q.max_age_secs by_status in
    let by_hops = retain_if within_hops q.max_hops by_age in
    let by_sender = retain_if is_from q.sender by_hops in
    let by_receiver = retain_if is_for q.receiver by_sender in fifo_last by_receiver q.limit

-- The letter fits one of the filters, or the filter is not set.
abbrev pub passes : {X : Type 0} → (X → Message → Bool) → Option X → Message → Bool
passes test none m = true
passes test (some x) m = test x m

-- The letter fits every filter that the query sets.
abbrev pub fits : (String → String) → Time → Query → Message → Bool
fits lower now q m =
    passes (has_status lower) q.status m
    && (passes (is_younger now) q.max_age_secs m
        && (passes within_hops q.max_hops m
            && (passes is_from q.sender m && passes is_for q.receiver m)))

retain_if-filter :
    {X : Type 0} (test : X → Message → Bool) (o : Option X) (p : Message → Bool) (ms : List Message)
    → filter p (retain_if test o ms) ≡ filter (λ m. passes test o m && p m) ms
unfolding filter
retain_if-filter test none p ms = refl
retain_if-filter test (some x) p [] = refl
retain_if-filter test (some x) p (m ∷ ms) = elim (Bool-cases (test x m)) [
  | inl t ↦ rw t (keep (retain_if-filter test (some x) p ms))
  | inr f ↦ rw f (retain_if-filter test (some x) p ms)
]
  where
    keep :
        {xs ys : List Message}
        → xs ≡ ys
        → (if p m then m ∷ xs else xs) ≡ (if p m then m ∷ ys else ys)
    keep e = ap (λ l. if p m then m ∷ l else l) e

retain_if-last :
    {X : Type 0} (test : X → Message → Bool) (o : Option X) (ms : List Message)
    → retain_if test o ms ≡ filter (λ m. passes test o m) ms
unfolding filter
retain_if-last test none [] = refl
retain_if-last test none (m ∷ ms) = ap (λ l. m ∷ l) (retain_if-last test none ms)
retain_if-last test (some x) ms = refl

fifo_last-drop :
    (ms : List Message) (limit : ℕ)
    → fifo_last ms limit ≡ drop (if limit == 0 then 0 else length ms - limit) ms
unfolding fifo_last
fifo_last-drop ms limit = elim (Bool-cases (limit == 0)) [
  | inl z ↦ let none_asked : ltb 0 limit ≡ false = ground arith in rw (z, none_asked) refl
  | inr nz ↦
      let asked : ltb 0 limit ≡ true = ground arith in
      rw (nz, asked)
        (elim (Bool-cases (ltb limit (length ms))) [
          | inl more ↦ rw more refl
          | inr fits ↦
              let none_over : length ms - limit ≡ 0 = ground arith in rw (fits, none_over) refl
        ])
]

list_letters_lem :
    (lower : String → String) (now : Time) (q : Query) (msgs : List Message)
    → let found = filter (fits lower now q) msgs in
      list_letters lower now q msgs
      ≡ drop (if q.limit == 0 then 0 else length found - q.limit) found
unfolding list_letters
list_letters_lem lower now q msgs =
    let by_status = retain_if (has_status lower) q.status msgs in
    let by_age = retain_if (is_younger now) q.max_age_secs by_status in
    let by_hops = retain_if within_hops q.max_hops by_age in
    let by_sender = retain_if is_from q.sender by_hops in
    let to_receiver = passes is_for q.receiver in
    let from_sender = λ (m : Message). passes is_from q.sender m && to_receiver m in
    let in_hops = λ (m : Message). passes within_hops q.max_hops m && from_sender m in
    let in_age = λ (m : Message). passes (is_younger now) q.max_age_secs m && in_hops m in
    fifo_last-drop (retain_if is_for q.receiver by_sender) q.limit
    ∙ ap (λ l. drop (if q.limit == 0 then 0 else length l - q.limit) l)
        (retain_if-last is_for q.receiver by_sender
          ∙ retain_if-filter is_from q.sender to_receiver by_hops
          ∙ retain_if-filter within_hops q.max_hops from_sender by_age
          ∙ retain_if-filter (is_younger now) q.max_age_secs in_hops by_status
          ∙ retain_if-filter (has_status lower) q.status in_age msgs)

-- Less than `age + 1` seconds old; for a negative age, that many seconds ahead of the clock.
abbrev pub IsYoung : Time → ℤ → Message → Type 0
IsYoung now (pos age) m = now < m.created_at + (age + 1) * nanos
IsYoung now (negsuc age) m = now + (age + 1) * nanos ≤ m.created_at

-- What the query asks of a letter.
pub record Fits (lower : String → String) (now : Time) (q : Query) (m : Message) : Type 0 where
  pub in_status : (s : String) → q.status ≡ some s → lower (status_debug m.status) ≡ lower s
  pub young : (age : ℤ) → q.max_age_secs ≡ some age → IsYoung now age m
  pub near : (h : ℕ) → q.max_hops ≡ some h → m.hops ≤ h
  pub sent_by : (s : String) → q.sender ≡ some s → m.sender ≡ s
  pub sent_to : (r : String) → q.receiver ≡ some r → m.receiver ≡ r

is_younger-IsYoung :
    (now : Time) (age : ℤ) (m : Message) → (is_younger now age m ≡ true) ↔ IsYoung now age m
is_younger-IsYoung now (pos age) m = (λ h. ground arith, λ h. ground arith)
is_younger-IsYoung now (negsuc age) m = (λ h. ground arith, λ h. ground arith)

within_hops-le : (h : ℕ) (m : Message) → (within_hops h m ≡ true) ↔ (m.hops ≤ h)
within_hops-le h m = (λ e. ground arith, λ e. ground arith)

passes_iff :
    {X : Type 0} (test : X → Message → Bool) (R : X → Type 0) (m : Message) (o : Option X)
    → ((x : X) → (test x m ≡ true) ↔ R x)
    → (passes test o m ≡ true) ↔ ((x : X) → o ≡ some x → R x)
passes_iff test R m none h = (λ t x e. absurd (ground arith), λ t. refl)
passes_iff test R m (some y) h =
    (λ t x e. subst R (some_inj e) ((h y).0 t), λ all. (h y).1 (all y refl))

and_iff :
    {a b : Bool} {A B : Type 0} → (a ≡ true) ↔ A → (b ≡ true) ↔ B → ((a && b) ≡ true) ↔ (A × B)
and_iff {a = false} h k = (λ e. absurd (ground arith), λ p. h.1 p.0)
and_iff {a = true} h k = (λ e. (h.0 refl, k.0 e), λ p. k.1 p.1)

fits-Fits :
    (lower : String → String) (now : Time) (q : Query) (m : Message)
    → (fits lower now q m ≡ true) ↔ Fits lower now q m
fits-Fits lower now q m =
    let (only, all) =
      and_iff
        (passes_iff (has_status lower) _ m q.status
          (λ s. eq_iff (lower (status_debug m.status)) (lower s)))
        (and_iff (passes_iff (is_younger now) _ m q.max_age_secs (λ a. is_younger-IsYoung now a m))
          (and_iff (passes_iff within_hops _ m q.max_hops (λ h. within_hops-le h m)) (
            and_iff (passes_iff is_from _ m q.sender (λ s. eq_iff m.sender s))
              (passes_iff is_for _ m q.receiver (λ r. eq_iff m.receiver r))))) in
    (
      λ e.
          let (s, (y, (n, (f, r)))) = only e in
          record { in_status = s; young = y; near = n; sent_by = f; sent_to = r },
      λ h. all (h.in_status, (h.young, (h.near, (h.sent_by, h.sent_to)))),
    )

-- The answer to a query is the letters that fit all the filters set, in the order of the bus,
-- without the oldest ones above the limit; a limit of 0 is none. A letter fits exactly if it has
-- the status asked for, up to case, is young enough, has come over at most the hops asked for, and
-- is from the sender and for the receiver asked for.
pub list_letters-fits :
    (lower : String → String) (now : Time) (q : Query) (msgs : List Message)
    → let found = filter (fits lower now q) msgs in
      (list_letters lower now q msgs
        ≡ drop (if q.limit == 0 then 0 else length found - q.limit) found)
      × ((m : Message) → (fits lower now q m ≡ true) ↔ Fits lower now q m)
list_letters-fits lower now q msgs = (list_letters_lem lower now q msgs, fits-Fits lower now q)
