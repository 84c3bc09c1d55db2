-- ===== src/Net/Router.antt =====
-- engine/src/hypernet/net/SessionRouterFactory.cpp and WorkerSchedulerFactory.cpp: the router that
-- sends to a session on whatever worker it is, and the scheduler that posts to a worker.
pub mod Groups
pub mod Each
use network_engine_portfolio.Prelude.{
  ℕ, ◌+◌, Bool, true, false, not, Option, none, some, List, [], ◌∷◌, ◌++◌, ◌==◌, ltb, if◌then◌else◌,
  length, get_or, set, replicate,
}
use network_engine_portfolio.App.Broadcaster.{is_here}

-- A handle to a session; `none` is a negative number of a worker.
pub record Target : Type 0 where
  pub id : ℕ
  pub owner_worker_id : Option ℕ

-- `RoutedPacketU16`.
pub record RoutedPacket : Type 0 where
  pub opcode : ℕ
  pub body : List ℕ

-- What a call of the router does: it sends to the sessions at once, or a task of their worker does.
pub record Delivery : Type 0 where
  pub worker : ℕ
  pub at_once : Bool
  pub targets : List Target
  pub packet : RoutedPacket

-- The worker of a handle that is not null, if the router has it.
unfoldable pub owner_of : (workers : ℕ) → Target → Option ℕ
owner_of workers t = if t.id == 0 then none else elim t.owner_worker_id [
  | none ↦ none
  | some owner ↦ if ltb owner workers then some owner else none
]

-- `cw` is the worker of the calling thread, if it has one; `loops` says which loops are not null;
-- `answer` is what a send on the worker of a session returns.
module _ (cw : Option ℕ) (loops : List Bool) (answer : Target → RoutedPacket → Bool) where
  abbrev pub to_one : (at_once : Bool) → ℕ → Target → RoutedPacket → Delivery
  to_one at_once owner t packet = record {
    worker = owner;
    at_once = at_once;
    targets = t ∷ [];
    packet = packet;
  }

  unfoldable pub send_to_owner : Option ℕ → Target → RoutedPacket → Bool × List Delivery
  send_to_owner none t packet = (false, [])
  send_to_owner (some owner) t packet =
      if is_here cw owner
      then (answer t packet, to_one true owner t packet ∷ [])
      else if not (get_or loops owner false)
      then (false, [])
      else (true, to_one false owner t packet ∷ [])

  -- `send` of a packet that keeps its body alive.
  unfoldable pub send : Target → RoutedPacket → Bool × List Delivery
  send t packet = send_to_owner (owner_of (length loops) t) t packet

  -- `send` of a view: at once, or with a copy of the body.
  unfoldable pub send_view : Target → ℕ → List ℕ → Bool × List Delivery
  send_view t opcode body =
      let packet : RoutedPacket = record { opcode = opcode; body = body } in
      elim (owner_of (length loops) t) [
        | none ↦ (false, [])
        | some owner ↦
            if is_here cw owner
            then (answer t packet, to_one true owner t packet ∷ [])
            else send t packet
      ]

  unfoldable pub add_to_group : List (List Target) → Option ℕ → Target → List (List Target)
  add_to_group groups none t = groups
  add_to_group groups (some owner) t = set groups owner (get_or groups owner [] ++ t ∷ [])

  unfoldable pub group : List (List Target) → List Target → List (List Target)
  group groups [] = groups
  group groups (t ∷ targets) = group (add_to_group groups (owner_of (length loops) t) t) targets

  unfoldable pub send_groups : ℕ → List (List Target) → RoutedPacket → List Delivery
  send_groups owner [] packet = []
  send_groups owner ([] ∷ groups) packet = send_groups (owner + 1) groups packet
  send_groups owner ((t ∷ ts) ∷ groups) packet =
      let rest = send_groups (owner + 1) groups packet in
      if is_here cw owner
      then record { worker = owner; at_once = true; targets = t ∷ ts; packet = packet } ∷ rest
      else if not (get_or loops owner false)
      then rest
      else record { worker = owner; at_once = false; targets = t ∷ ts; packet = packet } ∷ rest

  unfoldable pub broadcast : List Target → RoutedPacket → List Delivery
  broadcast [] packet = []
  broadcast (t ∷ targets) packet =
      send_groups 0 (group (replicate (length loops) []) (t ∷ targets)) packet

-- `postToWorker`: whether the task is posted, and on which loop.
unfoldable pub post_to_worker : (loops : List Bool) → Option ℕ → Option ℕ
post_to_worker loops none = none
post_to_worker loops (some worker) =
    if not (ltb worker (length loops))
    then none
    else if not (get_or loops worker false)
    then none
    else some worker
