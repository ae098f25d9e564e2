-- ===== src/Filters.antt =====
-- src/filters/problem-exception.filter.ts: the answer to an error that a handler threw. The payload
-- of an HttpException of the framework is a text, or an object whose message is a text, texts, or
-- not there.
use marketplace_template.Prelude.{
  ℕ, String, Option, none, some, List, [], ◌∷◌, ◌==◌, text_eq, nat_beq, if◌then◌else◌, leb, ◌<>◌,
  show_nat,
}
use marketplace_template.RateLimit.{ProblemException}

pub data Payload : Type 0 where
  plain : String → Payload
  one : String → Payload
  several : List String → Payload
  missing : Payload

pub data Exception : Type 0 where
  problem : ProblemException → Exception
  http : ℕ → Payload → String → Exception
  -- Anything else, with its `status`, `statusCode` and `message`.
  other : Option ℕ → Option ℕ → Option String → Exception

abbrev pub join_texts : List String → String
join_texts [] = ""
join_texts (s ∷ []) = s
join_texts (s ∷ t ∷ rest) = s <> "; " <> join_texts (t ∷ rest)

-- `a || b`: an empty text and 0 count as none.
abbrev pub text_or : Option String → String → String
text_or none t = t
text_or (some s) t = if s == "" then t else s

abbrev pub number_or : Option ℕ → ℕ → ℕ
number_or none m = m
number_or (some n) m = if nat_beq n 0 then m else n

unfoldable pub detail_of : Payload → String → String
detail_of (plain s) message = text_or (some s) message
detail_of (one s) message = text_or (some s) message
detail_of (several texts) message = join_texts texts
detail_of missing message = message

unfoldable pub http_problem : ℕ → String → String → ProblemException
http_problem status detail original_url = record {
  status = status;
  type = "https://marketplace.local/problems/http-" <> show_nat status;
  title = if leb 500 status then "Internal Server Error" else "Request Error";
  detail = detail;
  instance_url = original_url;
}

-- The problem that is sent, with its own status.
unfoldable pub catch_exception : String → Exception → ProblemException
unfolding detail_of http_problem
catch_exception original_url (problem p) = p
catch_exception original_url (http status payload message) =
    http_problem status (detail_of payload message) original_url
catch_exception original_url (other status status_code message) =
    http_problem (number_or status (number_or status_code 500)) (text_or message "Unexpected error")
      original_url
