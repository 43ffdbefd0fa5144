-- ===== src/Handshake/Invites.antt =====
-- handshake.rs: an invite is good once, and for ten minutes.
use hot_potato.Prelude.{
  ◌+◌, ◌≤◌, ltb, String, Bool, true, false, ◌≡◌, refl, List, [], ◌∷◌, ◌++◌, str_eq, any, filter,
  Bool-cases, inl, inr, arith, eq_refl,
}
use hot_potato.Message.{Time}
use hot_potato.Handshake.{Invite, valid, invite_ttl, create_invite, consume_invite, new_invite}

-- Some invite of the store has this code.
abbrev pub has_code : String → List Invite → Bool
has_code code store = any (λ inv. str_eq inv.code code) store

filter-has_code :
    (code : String) (p : Invite → Bool) (xs : List Invite)
    → has_code code xs ≡ false
    → has_code code (filter p xs) ≡ false
unfolding any filter
filter-has_code code p [] h = h
filter-has_code code p (inv ∷ rest) h = ground (arith, filter-has_code code p rest)

consume-skip :
    (code : String) (t : Time) (xs ys : List Invite)
    → has_code code xs ≡ false
    → consume_invite code t (xs ++ ys)
      ≡ ((consume_invite code t ys).0, xs ++ (consume_invite code t ys).1)
unfolding any consume_invite
consume-skip code t [] ys h = refl
consume-skip code t (inv ∷ rest) ys h = elim (Bool-cases (str_eq inv.code code)) [
  | inl e ↦ absurd (ground arith)
  | inr e ↦ rw e (rw (consume-skip code t rest ys (ground arith)) refl)
]

consume_single :
    (code : String) (now t : Time)
    → consume_invite code t (new_invite code now ∷ []) ≡ (
      ltb t (now + invite_ttl),
      record (new_invite code now) { used = ltb t (now + invite_ttl) } ∷ [],
    )
unfolding consume_invite
consume_single code now t =
    rw (eq_refl code)
      (elim (Bool-cases (ltb t (now + invite_ttl))) [ inl e ↦ rw e refl | inr e ↦ rw e refl ])

consume_used :
    (code : String) (now t : Time) (u : Bool)
    → (u ≡ false → ltb t (now + invite_ttl) ≡ false)
    → (consume_invite code t (record (new_invite code now) { used = u } ∷ [])).0 ≡ false
unfolding consume_invite
consume_used code now t true h = rw (eq_refl code) refl
consume_used code now t false h = rw (eq_refl code) (rw (h refl) refl)

-- An invite made at the time `now` with a code that no other invite has: the code is taken at the
-- time `t` exactly if that is before ten minutes have passed, and at no later time a second time.
pub create_invite-once :
    (code : String) (now t later : Time) (store : List Invite)
    → has_code code store ≡ false
    → t ≤ later
    → let made = (create_invite code now store).1 in
      ((consume_invite code t made).0 ≡ ltb t (now + invite_ttl))
      × ((consume_invite code later (consume_invite code t made).1).0 ≡ false)
unfolding create_invite
create_invite-once code now t later store fresh order =
    let kept = filter (valid now) store in
    let fresh' = filter-has_code code (valid now) store fresh in
    let u = ltb t (now + invite_ttl) in
    let after = record (new_invite code now) { used = u } ∷ [] in
    rw (consume-skip code t kept (new_invite code now ∷ []) fresh', consume_single code now t)
      (
        refl,
        rw (consume-skip code later kept after fresh')
            (consume_used code now later u (λ e. ground arith)),
      )
