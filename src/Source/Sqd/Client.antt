-- ===== src/Source/Sqd/Client.antt =====
-- crates/subdex-source/src/sqd/client.rs: the HTTP client of a portal's dataset. The network and the parser
-- of a block's JSON are parameters; so are the texts of a number's parse error and of a quoted `str`.
use subdex.Prelude.{
  ℕ, suc, String, str_eq, ◌<>◌, Bool, true, false, Option, none, some, List, [], ◌∷◌, if◌then◌else◌,
  decimal, u32_max, Attempt,
}
use subdex.Core.Error.{SubdexError, Result, ok, err}
use subdex.Exec.{Exec, ◌>>=◌}
use subdex.Settings.FromStr.{parse_uint}
use subdex.Source.Config.{DataSelection}
use subdex.Source.Value.{ℤ}
use subdex.Source.Sqd.Json.{Json, Elements, Members}
use subdex.Source.Sqd.Mapping.{PortalBlock}
use subdex.Source.Sqd.Text.{trim, lines, trim_slashes, is_empty_text}

-- `status().is_success()`, the status as text, the header of the finalized head as text if it is there,
-- and the body.
pub record Response : Type 0 where
  pub success : Bool
  pub status : String
  pub head_header : Option (Attempt String)
  pub text : Attempt String

pub record Http : Type 1 where
  pub Net : Type 0
  pub post : String → Json → Net → Attempt Response × Net

abbrev pub finalized_head_header : String
finalized_head_header = "x-sqd-finalized-head-number"

-- `json!` at a `u32`.
abbrev pub number_of : ℕ → Json
number_of n = Json.number (record { as_u64 = some n; as_i64 = some (ℤ.pos n); truncated = n })

-- `{ "key": true, … }`
abbrev all_true : List String → Members
all_true [] = Members.end
all_true (key ∷ keys) = Members.member key (Json.bool true) (all_true keys)

-- `map[key] = value` for an object.
unfoldable pub set : Members → String → Json → Members
set Members.end key value = Members.member key value Members.end
set (Members.member k v ms) key value =
    let rest = set ms key value in
    if str_eq k key then Members.member k value ms else Members.member k v rest

abbrev block_fields : Members
block_fields =
    Members.member "block"
      (Json.object (all_true ("number" ∷ "hash" ∷ "parentHash" ∷ "specVersion" ∷ "timestamp" ∷ [])))
      Members.end

abbrev event_keys : List String
event_keys = "name" ∷ "args" ∷ "phase" ∷ "extrinsicIndex" ∷ []

abbrev call_keys : List String
call_keys = "name" ∷ "args" ∷ "success" ∷ "origin" ∷ []

-- `if selected { map[key] = value }`
unfoldable pub set_if : Bool → String → Json → Members → Members
set_if true key value ms = set ms key value
set_if false key value ms = ms

-- `json!([{}])`
abbrev match_all : Json
match_all = Json.array (Elements.cons (Json.object Members.end) Elements.nil)

unfoldable pub stream_request : ℕ → ℕ → DataSelection → Json
stream_request from to selection =
    let fields =
      set_if selection.extrinsics "call" (Json.object (all_true call_keys))
        (set_if selection.events "event" (Json.object (all_true event_keys)) block_fields) in
    let req = Members.member "type" (Json.string "substrate") (
      Members.member "fromBlock" (number_of from) (
        Members.member "toBlock" (number_of to) (
          Members.member "includeAllBlocks" (Json.bool true)
            (Members.member "fields" (Json.object fields) Members.end)))) in
    Json.object (
      set_if selection.extrinsics "calls" match_all
        (set_if selection.events "events" match_all req))

unfoldable pub error_for_status : Response → Result Response
error_for_status resp =
    if resp.success
    then ok resp
    else err (SubdexError.source ("portal returned HTTP " <> resp.status))

abbrev head_request : Json
head_request = Json.object (
    Members.member "type" (Json.string "substrate") (
      Members.member "fromBlock" (number_of 0)
        (Members.member "toBlock" (number_of 0) Members.end)))

-- `.map_err(|e| …)` of a call of a library.
unfoldable pub or_err : {A : Type 0} → (String → SubdexError) → Attempt A → Result A
or_err f (Attempt.got a) = ok a
or_err f (Attempt.lost e) = err (f e)

-- A result inside an action.
abbrev pub lift : {W A : Type 0} → Result A → Exec W A
lift r w = (r, w)

pub record PortalClient : Type 0 where
  pub stream_url : String

-- The outcome of building the HTTP client comes first.
unfoldable pub new_client : Attempt (Unit {0}) → String → String → Result PortalClient
new_client (Attempt.lost e) portal_url dataset =
    err (SubdexError.source ("build http client: " <> e))
new_client (Attempt.got http) portal_url dataset =
    ok (record { stream_url = trim_slashes portal_url <> ("/datasets/" <> (dataset <> "/stream")) })

module _ (number_error debug : String → String) where
  unfoldable pub head_number : String → Option ℕ → Result ℕ
  head_number s none = err (
      SubdexError.source
        ("finalized-head header not a number (" <> (debug s <> ("): " <> number_error s))))
  head_number s (some n) = ok n

  unfoldable pub header_text : Attempt String → Result ℕ
  header_text (Attempt.lost e) = err (SubdexError.source ("bad finalized-head header: " <> e))
  header_text (Attempt.got s) = head_number s (parse_uint u32_max (trim s))

  unfoldable pub parse_head_header : Response → Result ℕ
  parse_head_header resp = elim resp.head_header [
    | none ↦
        err
          (SubdexError.source ("portal response missing " <> (finalized_head_header <> " header")))
    | some raw ↦ header_text raw
  ]

module _ (from_json : String → Attempt PortalBlock) where
  -- One line, once trimmed; `rest` is the outcome of the lines after it.
  unfoldable pub parse_line : ℕ → String → Result (List PortalBlock) → Result (List PortalBlock)
  parse_line i line rest = elim (from_json line) [
    | Attempt.lost e ↦ err (SubdexError.decode ("portal block line " <> (decimal i <> (": " <> e))))
    | Attempt.got pb ↦ elim rest [ ok blocks ↦ ok (pb ∷ blocks) | err e ↦ err e ]
  ]

  -- The loop, from the index of the first line on.
  unfoldable pub parse_lines : ℕ → List String → Result (List PortalBlock)
  parse_lines i [] = ok []
  parse_lines i (line ∷ ls) =
      let rest = parse_lines (suc i) ls in
      if is_empty_text (trim line) then rest else parse_line i (trim line) rest

  abbrev pub parse_json_lines : String → Result (List PortalBlock)
  parse_json_lines text = parse_lines 0 (lines text)

module _ (http : Http) (client : PortalClient) where
  -- `.send().await.map_err(…)?` and `error_for_status`.
  unfoldable pub sent : String → Attempt Response × http.Net → Result Response × http.Net
  sent label (Attempt.lost e, s) = (err (SubdexError.source (label <> e)), s)
  sent label (Attempt.got resp, s) = (error_for_status resp, s)

  abbrev pub send : String → Json → Exec http.Net Response
  send label body s = sent label (http.post client.stream_url body s)

  unfoldable pub portal_head : (String → String) → (String → String) → Exec http.Net ℕ
  portal_head number_error debug = do
    resp ← send "portal head request: " head_request
    lift (parse_head_header number_error debug resp)

  unfoldable pub fetch_range :
      (String → Attempt PortalBlock) → ℕ → ℕ → DataSelection → Exec http.Net (List PortalBlock)
  fetch_range from_json from to selection = do
    resp ← send "portal stream request: " (stream_request from to selection)
    text ← lift (or_err (λ e. SubdexError.source ("portal stream body: " <> e)) resp.text)
    lift (parse_json_lines from_json text)
