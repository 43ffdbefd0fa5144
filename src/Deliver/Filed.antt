-- ===== src/Deliver/Filed.antt =====
-- A registry is what its entries say: written out by name and inserted again, each agent has the
-- entry that it had.
use hot_potato.Prelude.{
  ◌≡◌, refl, sym, ap, ◌∙◌, subst, String, Bool, Option, none, some, List, [], ◌∷◌, map, find,
  lookup, lookup-insert, lookup-remove, insert, remove, str_eq, eq_iff, str_le, sort_by,
  sorted_insert, arith, if◌then◌else◌, Bool-cases, inl, inr,
}
use hot_potato.Deliver.{AgentEntry, Registry, all_entries}
use hot_potato.Deliver.Mirror.{insert_entries}

-- Each entry is filed under its own name, and no name twice.
abbrev pub IsFiled : Registry → Type 0
IsFiled [] = Unit
IsFiled ((k, e) ∷ rest) = (e.agent ≡ k) × (lookup k rest ≡ none) × IsFiled rest

pub insert-IsFiled :
    (k : String) (e : AgentEntry) (r : Registry) → e.agent ≡ k → IsFiled r → IsFiled (insert k e r)
unfolding insert lookup
insert-IsFiled k e [] own h = (own, refl, tt)
insert-IsFiled k e ((j, f) ∷ rest) own h = elim (Bool-cases (str_eq j k)) [
  | inl t ↦ rw t (own ∙ sym ((eq_iff j k).0 t), h.1, h.2)
  | inr t ↦ rw t (
    h.0,
    lookup-insert k j e rest ∙ ground (arith, h.1, eq_iff j k, eq_iff k j),
    insert-IsFiled k e rest own h.2,
  )
]

pub remove-IsFiled : (k : String) (r : Registry) → IsFiled r → IsFiled (remove k r)
unfolding remove lookup
remove-IsFiled k [] h = tt
remove-IsFiled k ((j, f) ∷ rest) h = elim (Bool-cases (str_eq j k)) [
  | inl t ↦ rw t (remove-IsFiled k rest h.2)
  | inr t ↦ rw t (h.0, lookup-remove k j rest ∙ ground (arith, h.1), remove-IsFiled k rest h.2)
]

pub insert_entries-IsFiled :
    (es : List AgentEntry) (r : Registry) → IsFiled r → IsFiled (insert_entries es r)
unfolding insert_entries
insert_entries-IsFiled [] r h = h
insert_entries-IsFiled (e ∷ es) r h =
    insert_entries-IsFiled es (insert e.agent e r) (insert-IsFiled e.agent e r refl h)

-- The entry of this name.
abbrev named : String → List AgentEntry → Option AgentEntry
named k es = find (λ e. str_eq e.agent k) es

abbrev Distinct : List AgentEntry → Type 0
Distinct [] = Unit
Distinct (e ∷ es) = (named e.agent es ≡ none) × Distinct es

abbrev values : Registry → List AgentEntry
values r = map (λ e. e.1) r

named-values : (k : String) (r : Registry) → IsFiled r → named k (values r) ≡ lookup k r
unfolding find lookup
named-values k [] h = refl
named-values k ((j, e) ∷ rest) h =
    ap (λ n. if str_eq n k then some e else named k (values rest)) h.0
    ∙ ap (λ o. if str_eq j k then some e else o) (named-values k rest h.2)

values-Distinct : (r : Registry) → IsFiled r → Distinct (values r)
values-Distinct [] h = tt
values-Distinct ((j, e) ∷ rest) h =
    (named-values e.agent rest h.2 ∙ ap (λ n. lookup n rest) h.0 ∙ h.1, values-Distinct rest h.2)

abbrev by_name : AgentEntry → AgentEntry → Bool
by_name a b = str_le a.agent b.agent

named-sorted_insert :
    (k : String) (e : AgentEntry) (es : List AgentEntry)
    → named e.agent es ≡ none
    → named k (sorted_insert by_name e es) ≡ named k (e ∷ es)
unfolding find sorted_insert
named-sorted_insert k e [] h = refl
named-sorted_insert k e (y ∷ ys) h = elim (Bool-cases (str_eq y.agent e.agent)) [
  | inl t ↦ absurd (ground arith)
  | inr t ↦
      let on_rest = named-sorted_insert k e ys (rw t at h) in
      elim (Bool-cases (by_name e y)) [
        | inl le ↦ rw le refl
        | inr gt ↦
            rw (gt, on_rest)
              (ground (arith, eq_iff y.agent e.agent, eq_iff y.agent k, eq_iff e.agent k))
      ]
]

sorted_insert-Distinct :
    (e : AgentEntry) (es : List AgentEntry)
    → named e.agent es ≡ none
    → Distinct es
    → Distinct (sorted_insert by_name e es)
unfolding find sorted_insert
sorted_insert-Distinct e [] h d = (refl, tt)
sorted_insert-Distinct e (y ∷ ys) h d = elim (Bool-cases (str_eq y.agent e.agent)) [
  | inl t ↦ absurd (ground arith)
  | inr t ↦ elim (Bool-cases (by_name e y)) [
    | inl le ↦ rw le (h, d)
    | inr gt ↦
        let none_of = named-sorted_insert y.agent e ys (rw t at h) in
        rw gt (
          none_of ∙ ground (arith, d.0, eq_iff y.agent e.agent, eq_iff e.agent y.agent),
          sorted_insert-Distinct e ys (rw t at h) d.1,
        )
  ]
]

named-sort_by :
    (k : String) (es : List AgentEntry) → Distinct es → named k (sort_by by_name es) ≡ named k es
unfolding sort_by find
named-sort_by k [] d = refl
named-sort_by k (e ∷ es) d =
    named-sorted_insert k e (sort_by by_name es) (named-sort_by e.agent es d.1 ∙ d.0)
    ∙ ap (λ o. if str_eq e.agent k then some e else o) (named-sort_by k es d.1)

sort_by-Distinct : (es : List AgentEntry) → Distinct es → Distinct (sort_by by_name es)
unfolding sort_by
sort_by-Distinct [] d = tt
sort_by-Distinct (e ∷ es) d =
    sorted_insert-Distinct e (sort_by by_name es) (named-sort_by e.agent es d.1 ∙ d.0)
      (sort_by-Distinct es d.1)

abbrev or_else : Option AgentEntry → Option AgentEntry → Option AgentEntry
or_else none o = o
or_else (some e) o = some e

lookup-insert_entries :
    (k : String) (es : List AgentEntry) (r : Registry)
    → Distinct es
    → lookup k (insert_entries es r) ≡ or_else (named k es) (lookup k r)
unfolding insert_entries find
lookup-insert_entries k [] r d = refl
lookup-insert_entries k (e ∷ es) r d =
    lookup-insert_entries k es (insert e.agent e r) d.1
    ∙ rw (lookup-insert e.agent k e r) (elim (Bool-cases (str_eq e.agent k)) [
      | inl t ↦
          let gone : named k es ≡ none =
            subst (λ n. named n es ≡ none) ((eq_iff e.agent k).0 t) d.0 in
          rw (t, gone) refl
      | inr f ↦ rw f refl
    ])

or_else-none : (o : Option AgentEntry) → or_else o none ≡ o
or_else-none none = refl
or_else-none (some e) = refl

-- The entries of a registry, by name, make a registry that answers every look-up as it does.
pub lookup-all_entries :
    (k : String) (r : Registry)
    → IsFiled r
    → lookup k (insert_entries (all_entries r) []) ≡ lookup k r
unfolding all_entries lookup
lookup-all_entries k r h =
    lookup-insert_entries k (all_entries r) [] (sort_by-Distinct (values r) (values-Distinct r h))
    ∙ or_else-none (named k (all_entries r))
    ∙ named-sort_by k (values r) (values-Distinct r h)
    ∙ named-values k r h
