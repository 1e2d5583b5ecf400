-- ===== src/Stellar/Api/Tests.antt =====
-- The wrapped block of the ledger, and the theorems at it.
use subql_stellar.Prelude.{
  ℕ, String, ◌<+>◌, [], ◌∷◌, Result, ok, throw, map, All, HasOneOwner, Perm, ◌≡◌, refl, to_decimal,
  read_digits, before_dash, big_int, lookup, insert, push_group, group_from, try_group_from,
}
use subql_stellar.Types.{SorobanEvent, StellarEffect, StellarOperation, StellarBlock}
use subql_stellar.Stellar.Api.Wrapping.{
  write_all, wrap_effect, wrap_operation, wrap_operations_for_tx, effect_key, set_transaction,
  wrap_transaction, wrap_transactions_for_ledger,
}
use subql_stellar.Stellar.Api.Ledger.{set_ledger, set_transaction_ledger, assemble}
use subql_stellar.Stellar.Api.Outline.{outline, expected, assemble-outline}
use subql_stellar.Stellar.Api.Links.{IsLinked, assemble-IsLinked}
use subql_stellar.Stellar.Api.Shares.{has_operation, has_effect, assemble-Perm}
use subql_stellar.Stellar.Api.Blocks.{kept, assemble-events}
use subql_stellar.Stellar.Api.Example.{ledger_of, txs, ops, effs, transfer_event, events}

abbrev no_block : StellarBlock
no_block = record {
  raw = ledger_of 0;
  effects = [];
  operations = [];
  transactions = [];
  events = [];
}

abbrev block_of : Result StellarBlock → StellarBlock
block_of (ok b) = b
block_of (throw e) = no_block

the_block : StellarBlock
unfolding assemble
the_block = block_of (assemble (ledger_of 7) txs ops effs events)

the_block-assembled : assemble (ledger_of 7) txs ops effs events ≡ ok the_block
unfolding the_block assemble wrap_transactions_for_ledger wrap_transaction wrap_operations_for_tx
    wrap_operation wrap_effect effect_key set_transaction set_ledger set_transaction_ledger
    write_all big_int before_dash read_digits to_decimal lookup insert push_group group_from
    try_group_from
the_block-assembled = refl

-- Both operations have their effect, and the first has the event.
outline_test :
    map outline the_block.transactions
    ≡ (
      record { hash = "t1"; source_account = "GA" },
      (
        record {
          id = "10";
          type = "invoke_host_function";
          source_account = "GA";
          transaction_hash = "t1";
        },
        record { id = "0010-0000000001"; type = "contract_credited"; account = "GA" } ∷ [],
        transfer_event ∷ [],
      )
          ∷ [],
    )
      ∷ (
        record { hash = "t2"; source_account = "GB" },
        (
          record { id = "11"; type = "payment"; source_account = "GB"; transaction_hash = "t2" },
          record { id = "0011-0000000001"; type = "account_debited"; account = "GB" } ∷ [],
          [],
        )
            ∷ [],
      )
      ∷ []
unfolding the_block assemble wrap_transactions_for_ledger wrap_transaction wrap_operations_for_tx
    wrap_operation wrap_effect effect_key set_transaction set_ledger set_transaction_ledger
    write_all big_int before_dash read_digits to_decimal lookup insert push_group group_from
    try_group_from
outline_test = refl

assemble-outline_example :
    map outline the_block.transactions
    ≡ map (expected ops effs (map (λ (e : SorobanEvent). e.raw) events)) txs
assemble-outline_example =
    assemble-outline (ledger_of 7) txs ops effs events the_block the_block-assembled

assemble-IsLinked_example : All (IsLinked (ledger_of 7)) the_block.transactions
assemble-IsLinked_example =
    assemble-IsLinked (ledger_of 7) txs ops effs events the_block the_block-assembled

each_operation : All (HasOneOwner has_operation txs) ops
each_operation = (refl, (refl, tt))

each_effect : All (HasOneOwner has_effect ops) effs
unfolding effect_key big_int before_dash read_digits to_decimal
each_effect = (refl, (refl, tt))

assemble-Perm_example :
    Perm (map (λ (op : StellarOperation). op.raw) the_block.operations) ops
    × Perm (map (λ (e : StellarEffect). e.raw) the_block.effects) effs
assemble-Perm_example =
    assemble-Perm (ledger_of 7) txs ops effs events the_block each_operation each_effect
      the_block-assembled

assemble-events_example : map kept the_block.events ≡ map kept events
assemble-events_example =
    assemble-events (ledger_of 7) txs ops effs events the_block the_block-assembled

abbrev not_a_number : String → Result ℕ
not_a_number s =
    throw (record { name = "SyntaxError"; message = "Cannot convert " <+> s <+> " to a BigInt" })

-- Digits of each radix, with a sign or white space, and texts that are none.
big_int_test :
    map big_int (" 012\n" ∷ "0x1f" ∷ "0b101" ∷ "+7" ∷ "" ∷ "-" ∷ "0x" ∷ "1 2" ∷ [])
    ≡ ok 12
      ∷ ok 31
      ∷ ok 5
      ∷ ok 7
      ∷ ok 0
      ∷ not_a_number "-"
      ∷ not_a_number "0x"
      ∷ not_a_number "1 2"
      ∷ []
unfolding big_int read_digits
big_int_test = refl
