-- ===== src/Services/OpRegistry/Pending.antt =====
-- The registry against its history: what the acknowledgements say about each operation.
use photon_solana_contracts.Prelude.{
  ℕ, ◌+◌, ◌≤◌, ◌<◌, ◌≡◌, refl, ap, ◌∙◌, Bool, true, false, ◌&&◌, Bytes, List, [], ◌∷◌, none, some,
  ◌==◌, bytes_eq, arith, if◌then◌else◌,
}
use photon_solana_contracts.Services.OpRegistry.{
  OpAcknowledge, OpRegistry, new_registry, on_acknowledge, get_block_to_ack, take_done,
}
use photon_solana_contracts.Services.OpRegistry.Order.{
  IsAscending, IsAscending-weaker, change_entry-IsAscending, waits, waits_from, after_status,
  waits-change_entry, above, take_done-IsAscending, waits-take_done,
}

-- What the task does, at a time: it takes an acknowledgement, or its timer fires.
pub data RegistryEvent : Type 0 where
  acknowledged : ℕ → OpAcknowledge → RegistryEvent
  polled : ℕ → RegistryEvent

unfoldable pub handle_event : RegistryEvent → OpRegistry → OpRegistry
handle_event (acknowledged now acknowledge) registry = on_acknowledge now acknowledge registry
handle_event (polled now) registry = (get_block_to_ack now registry).1

unfoldable pub handle_events : List RegistryEvent → OpRegistry → OpRegistry
handle_events [] registry = registry
handle_events (event ∷ events) registry = handle_events events (handle_event event registry)

-- Whether the operation `h` of the block `n` is pending after a history, without any registry: the
-- last acknowledgement for it that counts says so.
unfoldable pub is_pending : ℕ → Bytes → Bool → List RegistryEvent → Bool
is_pending n h before [] = before
is_pending n h before (polled now ∷ events) = is_pending n h before events
is_pending n h before (acknowledged now a ∷ events) =
    is_pending n h
      (if n == a.block_number && bytes_eq a.op_hash h then after_status a.status before else before)
      events

handle_event-IsAscending :
    (event : RegistryEvent) (registry : OpRegistry)
    → IsAscending 0 registry.known_ops
    → IsAscending 0 (handle_event event registry).known_ops
unfolding handle_event on_acknowledge get_block_to_ack
handle_event-IsAscending (acknowledged now a) registry h =
    change_entry-IsAscending 0 a.block_number _ _ registry.known_ops (omega arith) h
handle_event-IsAscending (polled now) registry h =
    IsAscending-weaker 0 _ _ (omega arith)
      (take_done-IsAscending now registry.ack_timeout none 0 registry.known_ops h (omega arith))

handle_events-IsAscending :
    (events : List RegistryEvent) (registry : OpRegistry)
    → IsAscending 0 registry.known_ops
    → IsAscending 0 (handle_events events registry).known_ops
unfolding handle_events
handle_events-IsAscending [] registry h = h
handle_events-IsAscending (event ∷ events) registry h =
    handle_events-IsAscending events (handle_event event registry)
      (handle_event-IsAscending event registry h)

waits-handle_events :
    (n : ℕ) (h : Bytes) (events : List RegistryEvent) (registry : OpRegistry)
    → IsAscending 0 registry.known_ops
    → waits n h (handle_events events registry).known_ops
      ≡ is_pending n h (waits n h registry.known_ops) events
unfolding handle_events handle_event on_acknowledge get_block_to_ack is_pending
waits-handle_events n h [] registry a = refl
waits-handle_events n h (acknowledged now k ∷ events) registry a =
    waits-handle_events n h events (on_acknowledge now k registry)
      (handle_event-IsAscending (acknowledged now k) registry a)
    ∙ ap (λ before. is_pending n h before events)
        (waits-change_entry k.block_number n h k.op_hash k.status 0 now registry.known_ops a)
waits-handle_events n h (polled now ∷ events) registry a =
    waits-handle_events n h events (get_block_to_ack now registry).1
      (handle_event-IsAscending (polled now) registry a)
    ∙ ap (λ before. is_pending n h before events)
        (waits-take_done now registry.ack_timeout none n h registry.known_ops)

-- Let a new registry have gone through any history of acknowledgements and polls. An operation
-- waits in it exactly when the history says so: some acknowledgement announced it as new for that
-- block, and none after that said that it was executed or had failed.
pub waits-is_pending :
    (timeout n : ℕ) (h : Bytes) (events : List RegistryEvent)
    → waits n h (handle_events events (new_registry timeout)).known_ops
      ≡ is_pending n h false events
unfolding new_registry waits
waits-is_pending timeout n h events = waits-handle_events n h events (new_registry timeout) tt

-- Let a new registry have gone through any history of acknowledgements and polls. Where the next
-- poll answers with a block, every operation that the history leaves pending belongs to a block
-- with a greater number: nothing that still has to be executed is reported as processed.
pub get_block_to_ack-is_pending :
    (timeout now b n : ℕ) (h : Bytes) (events : List RegistryEvent)
    → (get_block_to_ack now (handle_events events (new_registry timeout))).0 ≡ some b
    → is_pending n h false events ≡ true
    → b < n
unfolding get_block_to_ack new_registry
get_block_to_ack-is_pending timeout now b n h events answers pending =
    let registry = handle_events events (new_registry timeout) in
    let entries = registry.known_ops in
    let r = take_done now registry.ack_timeout none entries in
    let stays : waits n h r.1 ≡ true =
      waits-take_done now registry.ack_timeout none n h entries
      ∙ waits-is_pending timeout n h events
      ∙ pending in
    let ordered =
      take_done-IsAscending now registry.ack_timeout none 0 entries
        (handle_events-IsAscending events (new_registry timeout) tt) (omega arith) in
    let from : above r.0 0 ≤ n = waits_from n h (above r.0 0) r.1 ordered stays in
    let bound : above r.0 0 ≡ b + 1 = ap (λ z. above z 0) answers in omega (arith, from, bound)
