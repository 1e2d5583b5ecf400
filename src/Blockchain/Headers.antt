-- ===== src/Blockchain/Headers.antt =====
-- packages/node/src/blockchain.service.ts: where the hashes of a header lead.
use subql_stellar.Prelude.{
  ℕ, suc, ok, JsNumber, minus_one, number_text, to_decimal, parse_int-to_decimal,
  parse_int-number_text, >>=-eq-ok, ok-injective, ◌≡◌, sym, ap, ◌∙◌,
}
use subql_stellar.Types.{LedgerRecord}
use subql_stellar.Stellar.Utils.{Header, stellar_block_to_header}
use subql_stellar.Stellar.Api.{Horizon}
use subql_stellar.Blockchain.{get_header_for_height, get_header_for_hash}

-- A header's hash leads to the ledger of its height, and its parent hash to the one before.
pub get_header_for_hash_lem :
    (horizon : Horizon) (block : LedgerRecord)
    → (get_header_for_hash horizon (stellar_block_to_header block).block_hash
        ≡ get_header_for_height horizon (JsNumber.pos block.sequence))
      × (get_header_for_hash horizon (stellar_block_to_header block).parent_hash
          ≡ get_header_for_height horizon (minus_one block.sequence))
unfolding get_header_for_hash stellar_block_to_header
get_header_for_hash_lem horizon block = (
  ap (get_header_for_height horizon) (parse_int-to_decimal block.sequence),
  ap (get_header_for_height horizon) (parse_int-number_text block.sequence),
)

module _ (horizon : Horizon)
    (names : (n : ℕ) (l : LedgerRecord)
      → horizon.ledger (JsNumber.pos n) ≡ ok l
      → l.sequence ≡ n) where
  get_header_for_height-block_hash :
      (n : ℕ) (header : Header)
      → get_header_for_height horizon (JsNumber.pos n) ≡ ok header
      → header.block_hash ≡ to_decimal n
  unfolding get_header_for_height stellar_block_to_header
  get_header_for_height-block_hash n header h =
      let (l, e, h') = >>=-eq-ok (horizon.ledger (JsNumber.pos n)) _ h in
      ap (λ (header : Header). header.block_hash) (sym (ok-injective h'))
      ∙ ap to_decimal (names n l e)

  -- Where the Horizon server answers a ledger by the number asked for, headers form a chain: the
  -- header that a parent hash leads to has that hash, for every ledger but the one of sequence 0.
  pub get_header_for_hash-parent :
      (n : ℕ) (block : LedgerRecord) (parent : Header)
      → block.sequence ≡ suc n
      → get_header_for_hash horizon (stellar_block_to_header block).parent_hash ≡ ok parent
      → parent.block_hash ≡ (stellar_block_to_header block).parent_hash
  unfolding stellar_block_to_header number_text
  get_header_for_hash-parent n block parent later h =
      get_header_for_height-block_hash n parent (
        ap (λ s. get_header_for_height horizon (minus_one s)) (sym later)
        ∙ sym ((get_header_for_hash_lem horizon block).1)
        ∙ h)
      ∙ ap (λ s. number_text (minus_one s)) (sym later)
