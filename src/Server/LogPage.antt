-- ===== src/Server/LogPage.antt =====
-- server.rs: the page `/log`, the letters of the bus as text.
use Prim.Native.String.{◌++◌ as str_append}
use hot_potato.Prelude.{
  ℕ, ◌-◌, ◌≤◌, String, not, Option, none, some, List, [], drop, length, if◌then◌else◌, length-drop,
  arith,
}
use hot_potato.Error.{BusResult, ok, err}
use hot_potato.Message.{Message}
use hot_potato.Store.Interface.{BusStore}
use hot_potato.Bus.Defs
use hot_potato.Deliver.{PushTransport}
use hot_potato.Server.Gate.{is_text}
use hot_potato.Server.Pool.{ServerConfig, HeaderMap, Pool}

-- The page: the letters, one line each, and their total. `crashed` is the panic of tokio's
-- `blocking_read` within a task.
pub data Page : Type 0 where
  unauthorized : Page
  crashed : Page
  shown : List Message → ℕ → Page

abbrev or_no_letters : BusResult (List Message) → List Message
or_no_letters (ok ms) = ms
or_no_letters (err e) = []

or_fifty : Option ℕ → ℕ
or_fifty none = 50
or_fifty (some n) = n

-- The last `limit` letters.
abbrev pub window : ℕ → List Message → List Message
window limit msgs = drop (length msgs - limit) msgs

module _ (B : BusStore) (T : PushTransport) where
  show_page : Option ℕ → Pool B T → Page
  unfolding or_fifty
  show_page limit p =
      let msgs = or_no_letters (Defs.list_all B p.post.bus) in
      shown (window (or_fifty limit) msgs) (length msgs)

  -- The tests behind a token: a session header makes the task panic, whatever the token.
  locked_page : String → HeaderMap → Option String → Option ℕ → Pool B T → Page
  unfolding show_page
  locked_page expected headers none limit p =
      if not (is_text headers.authorization (str_append "Bearer " expected))
      then unauthorized
      else show_page limit p
  locked_page expected headers (some sid) limit p = crashed

  -- `log_page`.
  unfoldable pub log_page : ServerConfig → HeaderMap → Option ℕ → Pool B T → Page
  unfolding show_page locked_page
  log_page config headers limit p = elim config.bearer_token [
    | none ↦ show_page limit p
    | some expected ↦ locked_page expected headers headers.dashboard_session limit p
  ]

-- The page has at most `limit` letters.
pub length-window : (limit : ℕ) (msgs : List Message) → length (window limit msgs) ≤ limit
length-window limit msgs = omega (arith, length-drop (length msgs - limit) msgs)
