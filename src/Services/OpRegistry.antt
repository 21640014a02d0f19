-- ===== src/Services/OpRegistry.antt =====
-- `OpRegistry` (transmitter-module/src/executor_app/last_block_updater.rs): which blocks of the
-- message chain are processed. The map is a list in the order of the block numbers, and the set of
-- operations a list without repetition; the time is an argument.
pub mod Order
pub mod Pending
use photon_solana_contracts.Prelude.{
  ℕ, ◌-◌, Bool, true, false, not, ◌&&◌, Bytes, List, [], ◌∷◌, ◌++◌, Option, none, some, ltb, ◌==◌,
  bytes_eq, contains, if◌then◌else◌,
}
use photon_solana_contracts.Slots.{without, is_empty}
use photon_solana_contracts.ProtocolData.{OpStatus}

-- `ExecutorOpStatus`
pub data ExecutorOpStatus : Type 0 where
  new loaded signed executed failed : ExecutorOpStatus

-- `From<OpStatus>`
unfoldable pub executor_status : OpStatus → ExecutorOpStatus
executor_status OpStatus.none = new
executor_status OpStatus.init = loaded
executor_status OpStatus.signed = signed
executor_status OpStatus.executed = executed

pub record OpAcknowledge : Type 0 where
  pub block_number : ℕ
  pub op_hash : Bytes
  pub status : ExecutorOpStatus

pub record BlockInfo : Type 0 where
  pub created_at : ℕ
  pub ops : List Bytes

pub record OpRegistry : Type 0 where
  pub known_ops : List (ℕ × BlockInfo)
  pub ack_timeout : ℕ

unfoldable pub new_registry : ℕ → OpRegistry
new_registry ack_timeout = record { known_ops = []; ack_timeout = ack_timeout }

-- Sets: an element that is there already is reported and changes nothing, as does one that is missing.
unfoldable pub on_new_operation : Bytes → BlockInfo → BlockInfo
on_new_operation op_hash block = record block {
  ops = if contains block.ops op_hash then block.ops else block.ops ++ op_hash ∷ [];
}

unfoldable pub on_executed_operation : Bytes → BlockInfo → BlockInfo
on_executed_operation op_hash block = record block { ops = without op_hash block.ops }

-- The `match` on the status: any other one is reported.
unfoldable pub on_status : ExecutorOpStatus → Bytes → BlockInfo → BlockInfo
on_status new op_hash block = on_new_operation op_hash block
on_status failed op_hash block = on_executed_operation op_hash block
on_status executed op_hash block = on_executed_operation op_hash block
on_status loaded op_hash block = block
on_status signed op_hash block = block

-- `entry(n).or_insert(fresh)`, and then the change of that entry.
unfoldable pub change_entry :
    ℕ → BlockInfo → (BlockInfo → BlockInfo) → List (ℕ × BlockInfo) → List (ℕ × BlockInfo)
change_entry n fresh f [] = (n, f fresh) ∷ []
change_entry n fresh f ((m, block) ∷ rest) =
    let later = change_entry n fresh f rest in
    if n == m
    then (m, f block) ∷ rest
    else if ltb n m
    then (n, f fresh) ∷ (m, block) ∷ rest
    else (m, block) ∷ later

unfoldable pub on_acknowledge : ℕ → OpAcknowledge → OpRegistry → OpRegistry
on_acknowledge now acknowledge registry = record registry {
  known_ops =
      change_entry acknowledge.block_number (record { created_at = now; ops = [] })
        (on_status acknowledge.status acknowledge.op_hash) registry.known_ops;
}

-- The loop of `get_block_to_ack`: it removes the first entries that are old enough and have no
-- operation left, and answers with the last one that it removed.
unfoldable pub take_done : ℕ → ℕ → Option ℕ → List (ℕ × BlockInfo) → Option ℕ × List (ℕ × BlockInfo)
take_done now timeout block [] = (block, [])
take_done now timeout block ((n, info) ∷ rest) =
    let later = take_done now timeout (some n) rest in
    if ltb timeout (now - info.created_at) && is_empty info.ops
    then later
    else (block, (n, info) ∷ rest)

unfoldable pub get_block_to_ack : ℕ → OpRegistry → Option ℕ × OpRegistry
get_block_to_ack now registry =
    let (block, rest) = take_done now registry.ack_timeout none registry.known_ops in
    (block, record registry { known_ops = rest })
