-- ===== src/Deliver/Http.antt =====
-- deliver.rs: `HttpTransport::push`, as a function of what the HTTP client answers.
use Prim.Native.String.{◌++◌ as str_append}
use hot_potato.Prelude.{
  ℕ, ◌≤◌, ◌<◌, ◌≡◌, ◌↔◌, ◌⊎◌, refl, String, Bool, ◌&&◌, Option, none, some, leb, ltb, arith,
  if◌then◌else◌,
}
use hot_potato.Error.{Result, ok, err}
use hot_potato.Deliver.{DeliverVia, a2a, webhook, relay, poll, PushLetter}

-- What the client makes of a request: a response with its status, a timeout, or another error,
-- with the text by which it is printed.
pub data HttpAnswer : Type 0 where
  response : ℕ → String → HttpAnswer
  timed_out : String → HttpAnswer
  broken : String → HttpAnswer

-- `StatusCode::is_success`.
abbrev pub is_success : ℕ → Bool
is_success code = leb 200 code && ltb code 300

-- `.and_then(|r| r.error_for_status())`: an error from 400 to 599.
abbrev pub is_error_status : ℕ → Bool
is_error_status code = leb 400 code && ltb code 600

plain_result : String → HttpAnswer → Result String (Unit {0})
plain_result prefix (response code text) =
    if is_error_status code then err (str_append prefix text) else ok tt
plain_result prefix (timed_out text) = err (str_append prefix text)
plain_result prefix (broken text) = err (str_append prefix text)

a2a_result : String → HttpAnswer → Result String (Unit {0})
a2a_result url (response code text) =
    if is_success code
    then ok tt
    else err (str_append "a2a push rejected: HTTP " (str_append text (str_append " from " url)))
a2a_result url (timed_out text) = ok tt
a2a_result url (broken text) = err (str_append "a2a push failed: " text)

unfoldable pub http_push : DeliverVia → HttpAnswer → Result String (Unit {0})
unfolding plain_result a2a_result
http_push poll answer = err "poll-only agent: nothing to push"
http_push (webhook url) answer = plain_result "webhook push failed: " answer
http_push (a2a url token) answer = a2a_result url answer
http_push (relay url) answer = plain_result "relay push failed: " answer

-- The `contextId` of an A2A message: that of the letter, or one of its own.
unfoldable pub context_id_of : PushLetter → String
context_id_of p = elim p.context_id [ some c ↦ c | none ↦ str_append "bus-" p.letter.id ]

-- The answers that count as a delivery.
pub data IsAccepted : DeliverVia → HttpAnswer → Type 0 where
  a2a_success :
      {url : String} {token : Option String} {code : ℕ} {text : String}
      → 200 ≤ code
      → code < 300
      → IsAccepted (a2a url token) (response code text)
  a2a_timeout :
      {url : String} {token : Option String} {text : String}
      → IsAccepted (a2a url token) (timed_out text)
  webhook_answer :
      {url : String} {code : ℕ} {text : String}
      → (code < 400) ⊎ (600 ≤ code)
      → IsAccepted (webhook url) (response code text)
  relay_answer :
      {url : String} {code : ℕ} {text : String}
      → (code < 400) ⊎ (600 ≤ code)
      → IsAccepted (relay url) (response code text)

IsAccepted-of :
    (via : DeliverVia) (answer : HttpAnswer) → http_push via answer ≡ ok tt → IsAccepted via answer
unfolding http_push
IsAccepted-of poll answer h = absurd (ground arith)
IsAccepted-of (a2a url token) (response code text) h = a2a_success (ground arith) (ground arith)
IsAccepted-of (a2a url token) (timed_out text) h = a2a_timeout
IsAccepted-of (a2a url token) (broken text) h = absurd (ground arith)
IsAccepted-of (webhook url) (response code text) h = webhook_answer (ground arith)
IsAccepted-of (webhook url) (timed_out text) h = absurd (ground arith)
IsAccepted-of (webhook url) (broken text) h = absurd (ground arith)
IsAccepted-of (relay url) (response code text) h = relay_answer (ground arith)
IsAccepted-of (relay url) (timed_out text) h = absurd (ground arith)
IsAccepted-of (relay url) (broken text) h = absurd (ground arith)

ok_of :
    {via : DeliverVia} {answer : HttpAnswer} → IsAccepted via answer → http_push via answer ≡ ok tt
unfolding http_push
ok_of (a2a_success low high) = ground arith
ok_of a2a_timeout = refl
ok_of (webhook_answer h) = ground arith
ok_of (relay_answer h) = ground arith

-- A push counts as done exactly on an accepted answer: for A2A a success status or a timeout, so
-- that a refusal is never a receipt; for a webhook or relay any response that is no 4xx or 5xx;
-- for a poll-only agent nothing.
pub http_push-IsAccepted :
    (via : DeliverVia) (answer : HttpAnswer)
    → (http_push via answer ≡ ok tt) ↔ IsAccepted via answer
http_push-IsAccepted via answer = (IsAccepted-of via answer, ok_of)
