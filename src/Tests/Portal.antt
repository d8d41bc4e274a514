-- ===== src/Tests/Portal.antt =====
-- A portal of two blocks whose every other call fails.
use subdex.Prelude.{
  ℕ, zero, suc, ◌+◌, ◌≤◌, String, str_eq, Bool, true, false, Option, none, some, [], Attempt,
  if◌then◌else◌, ◌⊎◌, inl, inr, ◌≡◌, refl, arith, ap, decimal,
}
use subdex.Core.Error.{ok, err, SubdexError}
use subdex.Core.Chain.{Serves}
use subdex.Exec.{Exec, continue}
use subdex.Source.Retry.Attempts.{after, outcome}
use subdex.Settings.FromStr.{parse_uint, after_sign, some_digits, digits_value}
use subdex.Source.Retry.{is_transient}
use subdex.Source.Retry.Recovers.{Recovers}
use subdex.Source.Sqd.Json.{Json, get}
use subdex.Source.Sqd.Mapping.{PortalBlock}
use subdex.Source.Sqd.Text.{trim, trim_start, trim_end_with, lines, in_front}
use subdex.Source.Sqd.Client.{
  Response, stream_request, set, set_if, parse_head_header, header_text, head_number, parse_line,
  parse_lines, parse_json_lines, sent, portal_head, fetch_range, error_for_status, or_err,
}
use subdex.Source.Sqd.Lines.{Parses, parse_json_lines-Parses}
use subdex.Source.Sqd.{
  new_sqd_config, Libraries, SqdPortalSource, once_head, once_range, sqd_source,
}
use subdex.Source.Sqd.Portal.{portal_segment, IsPortal, chain, sqd_source-Serves}

abbrev hash_of : ℕ → String
hash_of zero = "0xa"
hash_of (suc n) = "0xb"

abbrev dataset : ℕ → PortalBlock
dataset n = record {
  header = record {
    number = n;
    hash = hash_of n;
    parent_hash = "0xa";
    spec_version = 1;
    timestamp = none;
  };
  events = [];
  calls = [];
}

abbrev from_json : String → Attempt PortalBlock
from_json s =
    if str_eq s "zero"
    then Attempt.got (dataset 0)
    else if str_eq s "one"
    then Attempt.got (dataset 1)
    else Attempt.lost "syntax"

abbrev number_in : Option Json → ℕ
number_in (some (Json.number n)) = n.truncated
number_in _ = 0

abbrev body_of : ℕ → ℕ → String
body_of zero zero = "zero\n"
body_of zero (suc to) = "zero\n\none\n"
body_of (suc from) to = " one\r\n"

abbrev answer : Json → Response
answer body = record {
  success = true;
  status = "200 OK";
  head_header = some (Attempt.got " 1 ");
  text = Attempt.got (body_of (number_in (get body "fromBlock")) (number_in (get body "toBlock")));
}

-- Down at every other call.
abbrev post : String → Json → Bool → Attempt Response × Bool
post url body true = (Attempt.lost "timeout", false)
post url body false = (Attempt.got (answer body), true)

abbrev lib : Libraries
lib = record {
  http = record { Net = Bool; post = post };
  clock = λ n. 7;
  from_json = from_json;
  hex_decode = λ s. none;
  blake2b_512 = λ bs. bs;
  to_base58 = λ bs. "";
  number_error = λ s. "";
  debug = λ s. s;
}

abbrev portal_source : SqdPortalSource
portal_source = record {
  client = record { stream_url = "https://portal/datasets/polkadot/stream" };
  config = new_sqd_config "https://portal/" "polkadot";
}

-- A call that fails at `true` and works at `false`.
every_other-Recovers :
    {A : Type 0} (op : Exec Bool A) (v : A) (m : String)
    → op true ≡ (err (SubdexError.source m), false)
    → op false ≡ (ok v, true)
    → Recovers 5 op v
unfolding is_transient
every_other-Recovers {A} op v m down up = record { gives = gives; in_time = in_time }
  where
    gives :
        (s : Bool)
        → ((op s).0 ≡ ok v) ⊎ ((e : SubdexError) × ((op s).0 ≡ err e) × (is_transient e ≡ true))
    gives true = inr (SubdexError.source m, ap (λ x. x.0) down, refl)
    gives false = inl (ap (λ x. x.0) up)

    in_time : (s : Bool) → (k : ℕ) × (k ≤ 5) × (outcome op k s ≡ ok v)
    in_time true = (1, omega arith, rw (down, outcome, after) (ap (λ x. x.0) up))
    in_time false = (0, omega arith, ap (λ x. x.0) up)

heads : Recovers 5 (once_head lib portal_source) 1
unfolding portal_head sent error_for_status continue parse_head_header header_text head_number
    parse_uint after_sign some_digits digits_value trim trim_start trim_end_with
heads = every_other-Recovers _ 1 "portal head request: timeout" refl refl

ranges :
    (from count : ℕ)
    → from + count ≤ 1
    → Recovers 5
        (once_range lib portal_source from (from + count))
        (portal_segment dataset from (suc count))
unfolding fetch_range stream_request set set_if or_err parse_lines parse_line lines in_front sent
    error_for_status continue trim trim_start trim_end_with
ranges zero zero le = every_other-Recovers _ _ "portal stream request: timeout" refl refl
ranges zero (suc zero) le = every_other-Recovers _ _ "portal stream request: timeout" refl refl
ranges (suc zero) zero le = every_other-Recovers _ _ "portal stream request: timeout" refl refl
ranges zero (suc (suc n)) le = absurd (omega arith)
ranges (suc zero) (suc n) le = absurd (omega arith)
ranges (suc (suc m)) n le = absurd (omega arith)

portal-IsPortal : IsPortal lib portal_source dataset 1
portal-IsPortal = record { heads = heads; ranges = ranges }

sqd_source-Serves_example :
    Serves (sqd_source lib portal_source) (chain lib portal_source dataset 1) 1
sqd_source-Serves_example =
    sqd_source-Serves lib portal_source dataset 1 portal-IsPortal (omega arith)

fails_at_two :
    parse_json_lines from_json "zero\n\nnone\n"
    ≡ err (SubdexError.decode "portal block line 2: syntax")
unfolding parse_lines parse_line lines in_front trim trim_start trim_end_with decimal
fails_at_two = refl

parse_json_lines-Parses_example :
    Parses from_json 0 (lines "zero\n\nnone\n") (parse_json_lines from_json "zero\n\nnone\n")
parse_json_lines-Parses_example = parse_json_lines-Parses from_json "zero\n\nnone\n"
