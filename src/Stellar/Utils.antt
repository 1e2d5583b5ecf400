-- ===== src/Stellar/Utils.antt =====
-- packages/node/src/stellar/utils.stellar.ts: headers, and the block that the indexer receives.
-- A `Date` is kept as the text that it is made from.
use subql_stellar.Prelude.{ℕ, String, to_decimal, minus_one, number_text}
use subql_stellar.Types.{LedgerRecord, StellarBlockWrapper}

pub record Header : Type 0 where
  pub block_height : ℕ
  pub block_hash : String
  pub parent_hash : String
  pub timestamp : String

unfoldable pub stellar_block_to_header : LedgerRecord → Header
stellar_block_to_header block = record {
  block_height = block.sequence;
  block_hash = to_decimal block.sequence;
  parent_hash = number_text (minus_one block.sequence);
  timestamp = block.closed_at;
}

-- `IBlock`: a block and what its `getHeader` returns.
pub record IBlock : Type 0 where
  pub block : StellarBlockWrapper
  pub header : Header

unfoldable pub format_block_util : StellarBlockWrapper → IBlock
format_block_util block = record { block = block; header = stellar_block_to_header block.block.raw }

-- In milliseconds.
abbrev pub calc_interval : ℕ
calc_interval = 6000
