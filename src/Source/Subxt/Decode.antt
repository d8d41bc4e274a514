-- ===== src/Source/Subxt/Decode.antt =====
-- crates/subdex-source/src/mapping.rs: a block of the node as the framework's `Block`. What subxt gives of
-- a block is a parameter, each of its calls with its outcome; the counter of decode failures is the
-- list of what was counted.
use mathlib.Core.Option.{map}
use subdex.Prelude.{
  ℕ, suc, ◌%◌, ◌^◌, String, ◌<>◌, Bool, Option, none, some, List, [], ◌∷◌, ◌++◌, if◌then◌else◌,
  decimal, Attempt,
}
use subdex.Core.Error.{SubdexError, Result, ok, err}
use subdex.Core.Types.{Block, Extrinsic, Event}
use subdex.Exec.{Exec, pure, raise, ◌>>=◌, ◌>>◌}
use subdex.Source.Config.{DataSelection}
use subdex.Source.Ss58.{encode, account_from_address_bytes}
use subdex.Source.Value.{Value, Items}
use subdex.Source.Subxt.Parts.{
  RawEvent, RawExtrinsic, Success, get, note_outcome, extrinsic_index_of, or_true,
  extract_timestamp,
}

module _ (Net : Type 0) where
  abbrev pub Request : Type 0 → Type 0
  Request A = Net → Attempt A × Net

  -- A client at a block.
  pub record At : Type 0 where
    pub number : ℕ
    pub hash : List ℕ
    pub spec_version : ℕ
    pub parent_hash : Request (List ℕ)
    pub events : Request (List (Attempt RawEvent))
    pub extrinsics : Request (List (Attempt RawExtrinsic))

  -- The network, and the labels of the failures that were counted.
  pub record Decoding : Type 0 where
    pub net : Net
    pub failures : List (String × String)

module _ {Net : Type 0} where
  unfoldable pub replied :
      {A : Type 0}
      → (String → SubdexError)
      → Decoding Net
      → Attempt A × Net
      → Result A × Decoding Net
  replied f w (Attempt.got a, net) = (ok a, record w { net = net })
  replied f w (Attempt.lost e, net) = (err (f e), record w { net = net })

  -- `request.await.map_err(f)?`
  abbrev pub ask : {A : Type 0} → (String → SubdexError) → Request Net A → Exec (Decoding Net) A
  ask f request w = replied f w (request w.net)

  -- `item.map_err(f)?`
  unfoldable pub checked : {A : Type 0} → (String → SubdexError) → Attempt A → Exec (Decoding Net) A
  checked f (Attempt.got a) = pure a
  checked f (Attempt.lost e) = raise (f e)

  abbrev pub count_failure : String → String → Exec (Decoding Net) (Unit {0})
  count_failure kind pallet w = (ok tt, record w { failures = w.failures ++ ((kind, pallet) ∷ []) })

  unfoldable pub on_decode_failure :
      String → String → String → ℕ → String → Bool → Exec (Decoding Net) Value
  on_decode_failure kind pallet item height e strict = do
    count_failure kind pallet
    if strict
        then raise (
            SubdexError.decode (
              kind
              <> (" "
                  <> (pallet
                      <> ("." <> (item <> (" at block " <> (decimal height <> (": " <> e)))))))))
        else pure (Value.unnamed Items.nil)

  -- The fields, or what is made of the failure.
  unfoldable pub decoded :
      String → String → String → ℕ → Bool → Attempt Value → Exec (Decoding Net) Value
  decoded kind pallet item height strict (Attempt.got v) = pure v
  decoded kind pallet item height strict (Attempt.lost e) =
      on_decode_failure kind pallet item height e strict

  -- The loop of `map_events` from index `i` on.
  unfoldable pub events_loop :
      ℕ
      → Bool
      → ℕ
      → List (Attempt RawEvent)
      → Success
      → Exec (Decoding Net) (List (Event Value) × Success)
  events_loop height strict i [] success = pure ([], success)
  events_loop height strict i (item ∷ items) success = do
    ev ← checked (λ e. SubdexError.decode ("event: " <> e)) item
    fields ← decoded "event" ev.pallet ev.name height strict ev.fields
    rest ← events_loop height strict (suc i) items (note_outcome ev success)
    pure (
      record {
        index = i % 2 ^ 32;
        pallet = ev.pallet;
        name = ev.name;
        fields = fields;
        extrinsic_index = extrinsic_index_of ev.phase;
      }
          ∷ rest.0,
      rest.1,
    )

  unfoldable pub map_events : At Net → ℕ → Bool → Exec (Decoding Net) (List (Event Value) × Success)
  map_events at height strict = do
    events ← ask (λ e. SubdexError.source ("fetch events: " <> e)) at.events
    events_loop height strict 0 events []

  -- The events where they are selected, and none where they are not.
  unfoldable pub selected_events :
      At Net → ℕ → DataSelection → Bool → Exec (Decoding Net) (List (Event Value) × Success)
  selected_events at number selection strict =
      if selection.events then map_events at number strict else pure ([], [])

-- `format!("0x{}", hex::encode(bytes))`
abbrev hex_text : (List ℕ → String) → List ℕ → String
hex_text hex_encode bytes = "0x" <> hex_encode bytes

module _ (hex_encode : List ℕ → String) (blake2b_512 : List ℕ → List ℕ)
    (to_base58 : List ℕ → String) where
  unfoldable pub signer_of : ℕ → List ℕ → String
  signer_of ss58_prefix b = elim (account_from_address_bytes b) [
    | some account ↦ encode blake2b_512 to_base58 account ss58_prefix
    | none ↦ hex_text hex_encode b
  ]

  module _ {Net : Type 0} where
    -- The loop of `map_extrinsics`.
    unfoldable pub extrinsics_loop :
        Success
        → ℕ
        → ℕ
        → Bool
        → List (Attempt RawExtrinsic)
        → Exec (Decoding Net) (List (Extrinsic Value))
    extrinsics_loop success ss58_prefix height strict [] = pure []
    extrinsics_loop success ss58_prefix height strict (item ∷ items) = do
      ext ← checked (λ e. SubdexError.decode ("extrinsic: " <> e)) item
      args ← decoded "extrinsic" ext.pallet ext.call height strict ext.args
      rest ← extrinsics_loop success ss58_prefix height strict items
      pure (
          record {
            index = ext.index % 2 ^ 32;
            pallet = ext.pallet;
            call = ext.call;
            args = args;
            signed = ext.signed;
            signer = map (signer_of ss58_prefix) ext.address_bytes;
            success = or_true (get success (ext.index % 2 ^ 32));
          }
          ∷ rest)

    unfoldable pub map_extrinsics :
        At Net → Success → ℕ → ℕ → Bool → Exec (Decoding Net) (List (Extrinsic Value))
    map_extrinsics at success ss58_prefix height strict = do
      exts ← ask (λ e. SubdexError.source ("fetch extrinsics: " <> e)) at.extrinsics
      extrinsics_loop success ss58_prefix height strict exts

    -- Likewise, with the timestamp.
    unfoldable pub selected_extrinsics :
        At Net
        → Success
        → ℕ
        → DataSelection
        → ℕ
        → Bool
        → Exec (Decoding Net) (List (Extrinsic Value) × Option ℕ)
    selected_extrinsics at success number selection ss58_prefix strict =
        if selection.extrinsics
        then (map_extrinsics at success ss58_prefix number strict >>= λ exts.
            pure (exts, extract_timestamp exts))
        else pure ([], none)

    unfoldable pub map_block :
        At Net → Bool → DataSelection → ℕ → Bool → Exec (Decoding Net) (Block Value)
    map_block at finalized selection ss58_prefix strict = do
      parent ← ask (λ e. SubdexError.source ("fetch header: " <> e)) at.parent_hash
      events ← selected_events at (at.number % 2 ^ 32) selection strict
      exts ← selected_extrinsics at events.1 (at.number % 2 ^ 32) selection ss58_prefix strict
      pure (record {
        id = record { number = at.number % 2 ^ 32; hash = hex_text hex_encode at.hash };
        parent_hash = hex_text hex_encode parent;
        timestamp = exts.1;
        spec_version = at.spec_version;
        finalized = finalized;
        extrinsics = exts.0;
        events = events.0;
      })
