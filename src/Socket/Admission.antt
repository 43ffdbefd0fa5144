-- ===== src/Socket/Admission.antt =====
-- Who may observe, and who may call.
use Prim.Native.String.{◌++◌ as str_append}
use text.Mathlib.TextLemmas.{append_cancel_left}
use hot_potato.Prelude.{
  ◌≡◌, refl, sym, ap, ◌∙◌, String, Option, none, some, arith, str_eq, eq_iff, inl, inr, Bool-cases,
  Option-cases,
}
use hot_potato.Store.Interface.{BusStore}
use hot_potato.Deliver.{PushTransport}
use hot_potato.Server.Pool.{ServerConfig, Pool}
use hot_potato.Server.Gate.{is_text, is_authed, passes_gate}
use hot_potato.Socket.{is_admitted}

bearer_eq : (a b : String) → str_eq (str_append "Bearer " a) (str_append "Bearer " b) ≡ str_eq a b
bearer_eq a b = elim (Bool-cases (str_eq a b)) [
  | inl e ↦
      (eq_iff (str_append "Bearer " a) (str_append "Bearer " b)).1
        (ap (str_append "Bearer ") ((eq_iff a b).0 e))
      ∙ sym e
  | inr e ↦ elim (Bool-cases (str_eq (str_append "Bearer " a) (str_append "Bearer " b))) [
    | inr e' ↦ e' ∙ sym e
    | inl e' ↦
        (e'
          ∙ sym (
              (eq_iff a b).1 (
                append_cancel_left "Bearer " a b
                  ((eq_iff (str_append "Bearer " a) (str_append "Bearer " b)).0 e'))))
  ]
]

-- `Authorization: Bearer <t>`.
abbrev pub bearer : Option String → Option String
bearer none = none
bearer (some t) = some (str_append "Bearer " t)

bearer-is_text :
    (t : Option String) (expected : String)
    → is_text (bearer t) (str_append "Bearer " expected) ≡ is_text t expected
bearer-is_text none expected = refl
bearer-is_text (some t) expected = bearer_eq t expected

-- Who may observe with a token and a session in the query may call with them in the headers, and
-- the other way round, from whichever pool the call comes.
pub is_admitted-passes_gate :
    (B : BusStore) (T : PushTransport) (config : ServerConfig) (p : Pool B T)
    (t sid from_pool : Option String)
    → is_admitted config p.sessions t sid
      ≡ passes_gate config
          (record { authorization = bearer t; dashboard_session = sid; potato_pool = from_pool })
          p
unfolding is_admitted passes_gate is_authed
is_admitted-passes_gate B T config p t sid from_pool = elim (Option-cases config.bearer_token) [
  | inl e ↦ rw e refl
  | inr (expected, e) ↦ rw (e, bearer-is_text t expected) (ground arith)
]
