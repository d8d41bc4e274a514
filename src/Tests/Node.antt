-- ===== src/Tests/Node.antt =====
-- A node of two blocks whose every other call of `at_block` is lost, and one event that does not decode.
use subdex.Prelude.{
  ℕ, zero, suc, ◌<◌, ◌≤◌, All, map, String, Bool, true, false, none, some, List, [], ◌∷◌, Attempt,
  inl, inr, ◌≡◌, ◌↔◌, refl, arith, Bool-cases,
}
use subdex.Core.Error.{SubdexError, ok, err}
use subdex.Core.Types.{Block, Event}
use subdex.Core.Chain.{Serves}
use subdex.Exec.{Exec, pure, ◌>>=◌, continue}
use subdex.Source.Config.{SourceConfig, new, events_only}
use subdex.Source.Retry.{is_transient}
use subdex.Source.Retry.Recovers.{Recovers}
use subdex.Source.Value.{Value, Items}
use subdex.Source.Subxt.{Buffered, IsBuffered, subxt_source}
use subdex.Source.Subxt.Parts.{Phase, RawEvent, extract_timestamp, extrinsic_index_of}
use subdex.Source.Subxt.Decode.{
  Request, At, Decoding, replied, checked, on_decode_failure, decoded, events_loop, map_events,
  extrinsics_loop, map_extrinsics, selected_events, selected_extrinsics, map_block,
}
use subdex.Source.Subxt.Strict.{failed, map_block-strict}
use subdex.Source.Subxt.Node.{
  Node, Held, put_back, fetch_once, head_once, node_client, node_source-Serves,
}

abbrev pub no_text : List ℕ → String
no_text bs = ""

abbrev pub no_hash : List ℕ → List ℕ
no_hash bs = bs

abbrev always : {A : Type 0} → A → Request Bool A
always a s = (Attempt.got a, s)

abbrev odd_event : RawEvent
odd_event = record {
  phase = Phase.apply_extrinsic 0;
  pallet = "System";
  name = "ExtrinsicFailed";
  fields = Attempt.lost "eof";
}

abbrev block_at : ℕ → List (Attempt RawEvent) → At Bool
block_at n events = record {
  number = n;
  hash = n ∷ [];
  spec_version = 1;
  parent_hash = always [];
  events = always events;
  extrinsics = always [];
}

-- Lost at `true`.
abbrev at_block : ℕ → Request Bool (At Bool)
at_block n true = (Attempt.lost "timeout", false)
at_block n false = (Attempt.got (block_at n []), true)

abbrev pub node : Node
node = record {
  Net = Bool;
  Stream = ℕ;
  Found = ℕ;
  at_block = at_block;
  at_current_block = always (block_at 1 []);
  stream_blocks = always 0;
  next = λ stream net. ((some (Attempt.lost "closed"), stream), net);
  at = λ n. always (block_at n []);
}

abbrev pub config : SourceConfig
config = new "wss://node"

abbrev pub chain : ℕ → Block Value
chain n = record {
  id = record { number = n; hash = "0x" };
  parent_hash = "0x";
  timestamp = none;
  spec_version = 1;
  finalized = true;
  extrinsics = [];
  events = [];
}

abbrev start : Held node
start = record { decoding = record { net = false; failures = [] }; stream = some 7 }

abbrev here : Decoding Bool
here = record { net = true; failures = [] }

abbrev failed_event : Event Value
failed_event = record {
  index = 0;
  pallet = "System";
  name = "ExtrinsicFailed";
  fields = Value.unnamed Items.nil;
  extrinsic_index = some 0;
}

abbrev failing : At Bool
failing = block_at 1 (Attempt.got odd_event ∷ [])

clean :
    map_block no_text no_hash no_text (block_at 1 []) true config.selection 42 true here
    ≡ (ok (chain 1), here)
unfolding map_block selected_events selected_extrinsics map_events map_extrinsics events_loop
    extrinsics_loop replied continue extract_timestamp
clean = refl

counts :
    map_block no_text no_hash no_text failing true events_only 42 false
      (record { net = true; failures = [] })
    ≡ (
      ok (record (chain 1) { events = failed_event ∷ [] }),
      record { net = true; failures = ("event", "System") ∷ [] },
    )
unfolding map_block selected_events selected_extrinsics map_events events_loop checked decoded
    on_decode_failure replied continue extrinsic_index_of
counts = refl

map_block-strict_example :
    (map_block no_text no_hash no_text (block_at 1 []) true config.selection 42 true here
      ≡ (ok (chain 1), here))
    ↔ ((map_block no_text no_hash no_text (block_at 1 []) true config.selection 42 false here
          ≡ (ok (chain 1), here))
        × (failed here ≡ failed here))
map_block-strict_example =
    map_block-strict no_text no_hash no_text (block_at 1 []) true config.selection 42 here here
      (chain 1)

head_once-ok : (w : Held node) → (head_once node no_text no_hash no_text (λ n. 7) config w).0 ≡ ok 1
unfolding head_once continue put_back replied
head_once-ok w = refl

-- A call that is lost where `down` is true, and is not down after that.
down-Recovers :
    {W A : Type 0} (op : Exec W A) (v : A) (down : W → Bool)
    → ((w : W)
        → down w ≡ true
        → (m : String) × ((op w).0 ≡ err (SubdexError.source m)) × (down (op w).1 ≡ false))
    → ((w : W) → down w ≡ false → (op w).0 ≡ ok v)
    → Recovers 5 op v
unfolding is_transient
down-Recovers op v down lost works = record {
  gives = λ w. elim (Bool-cases (down w)) [
    | inl b ↦ let (m, e, d) = lost w b in inr (SubdexError.source m, e, refl)
    | inr b ↦ inl (works w b)
  ];
  in_time = λ w. elim (Bool-cases (down w)) [
    | inl b ↦ let (m, e, d) = lost w b in (1, omega arith, works (op w).1 d)
    | inr b ↦ (0, omega arith, works w b)
  ];
}

abbrev once : ℕ → Exec (Held node) (Block Value)
once n = fetch_once node no_text no_hash no_text (λ n. 7) config n true

pub blocks : (n : ℕ) → n ≤ 1 → Recovers 5 (once n) (chain n)
unfolding fetch_once put_back replied continue map_block selected_events selected_extrinsics
    map_events map_extrinsics events_loop extrinsics_loop extract_timestamp
blocks zero le =
    down-Recovers (once 0) (chain 0) (λ w. w.decoding.net) (λ w e. rw e (_, refl, refl))
      (λ w e. rw e refl)
blocks (suc zero) le =
    down-Recovers (once 1) (chain 1) (λ w. w.decoding.net) (λ w e. rw e (_, refl, refl))
      (λ w e. rw e refl)
blocks (suc (suc n)) le = absurd (omega arith)

pub heads : Recovers 5 (head_once node no_text no_hash no_text (λ n. 7) config) 1
heads = record {
  gives = λ w. inl (head_once-ok w);
  in_time = λ w. (0, omega arith, head_once-ok w);
}

-- Requests one after another.
abbrev pub one_by_one : {Net A : Type 0} → Buffered Net A
one_by_one zero request heights s = (err (SubdexError.source "no request in flight"), s)
one_by_one (suc limit) request [] s = (ok [], s)
one_by_one (suc limit) request (h ∷ heights) s =
    (do a ← request h; rest ← one_by_one (suc limit) request heights; pure (a ∷ rest)) s

one_by_one-collects :
    {Net A : Type 0} (limit : ℕ) (request : ℕ → Exec Net A) (value : ℕ → A) (heights : List ℕ)
    → 0 < limit
    → All (λ h. (s : Net) → (request h s).0 ≡ ok (value h)) heights
    → (s : Net) → (one_by_one limit request heights s).0 ≡ ok (map value heights)
unfolding continue
one_by_one-collects zero request value heights pos works s = absurd (omega arith)
one_by_one-collects (suc limit) request value [] pos works s = refl
one_by_one-collects (suc limit) request value (h ∷ heights) pos (w, ws) s =
    rw (w s)
      (rw (one_by_one-collects (suc limit) request value heights pos ws (request h s).1) refl)

pub one_by_one-IsBuffered : {Net A : Type 0} → IsBuffered (one_by_one {Net = Net} {A = A})
one_by_one-IsBuffered = record { collects = one_by_one-collects }

node_source-Serves_example :
    Serves
      (subxt_source (node_client node no_text no_hash no_text (λ n. 7) config) one_by_one config)
      chain
      1
node_source-Serves_example =
    node_source-Serves node no_text no_hash no_text (λ n. 7) config chain 1
      (record { heads = heads; blocks = blocks }) one_by_one one_by_one-IsBuffered (omega arith)
      (omega arith)
