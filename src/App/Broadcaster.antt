-- ===== src/App/Broadcaster.antt =====
-- TopicBroadcaster.cpp and OutboundPackets.hpp of runtime/extensions/app: who gets a packet, and the
-- jobs that are posted to the workers for it.
pub mod Buckets
use network_engine_portfolio.Prelude.{
  ℕ, zero, suc, ◌+◌, Bool, true, false, not, ◌&&◌, Option, none, some, List, [], ◌∷◌, ◌++◌, ◌==◌,
  ltb, if◌then◌else◌, length, get_or, set, take, replicate, map,
}
use network_engine_portfolio.App.Registry.Store.{SessionHandle}
use network_engine_portfolio.App.Registry.Api.{
  Registry, try_get_handle, snapshot_all, snapshot_scope, snapshot_topic,
}
use network_engine_portfolio.Net.Manager.{owner_worker_from_id}

-- The body is null or has `size` bytes; the copy of none is null.
unfoldable pub copy_payload : Option (List ℕ) → ℕ → Option (List ℕ)
copy_payload body size =
    if size == 0
    then none
    else elim body [ none ↦ some (replicate size 0) | some bytes ↦ some (take size bytes) ]

-- What a worker is asked to do with its registry.
pub data Job : Type 0 where
  to_session : (sid : ℕ) → Job
  to_sessions : (sids : List ℕ) → Job
  to_all : (except : ℕ) → Job
  to_scope : (scope except : ℕ) → Job
  to_topic : (scope topic except : ℕ) → Job

-- `at_once`: on the calling worker, without a post.
pub record Posted : Type 0 where
  pub worker : ℕ
  pub at_once : Bool
  pub job : Job

unfoldable pub handles : ℕ → Registry → List ℕ → List SessionHandle
handles cw r [] = []
handles cw r (sid ∷ sids) =
    let rest = handles cw r sids in
    elim (try_get_handle cw r sid) [ none ↦ rest | some h ↦ h ∷ rest ]

unfoldable pub targets : ℕ → Registry → Job → List SessionHandle
targets cw r (to_session sid) = handles cw r (sid ∷ [])
targets cw r (to_sessions sids) = handles cw r sids
targets cw r (to_all except) = snapshot_all cw r except
targets cw r (to_scope scope except) = snapshot_scope cw r scope except
targets cw r (to_topic scope topic except) = snapshot_topic cw r scope topic except

-- Whom a posted job hands to the router; with nobody there is no call. A registry can be null.
unfoldable pub run_job : List (Option Registry) → Posted → List SessionHandle
run_job regs p = elim (get_or regs p.worker none) [ none ↦ [] | some r ↦ targets p.worker r p.job ]

-- The session that is sent to by its id alone.
unfoldable pub send_to : (ready : Bool) → (workers sid : ℕ) → Option Posted
send_to ready workers sid =
    let owner = owner_worker_from_id sid in
    if not ready
    then none
    else if not (ltb owner workers)
    then none
    else some (record { worker = owner; at_once = false; job = to_session sid })

abbrev pub is_wanted : (workers except sid : ℕ) → Bool
is_wanted workers except sid =
    not (sid == 0) && (not (sid == except) && ltb (owner_worker_from_id sid) workers)

unfoldable pub add_to_bucket : List (List ℕ) → ℕ → ℕ → List (List ℕ)
add_to_bucket buckets owner sid = set buckets owner (get_or buckets owner [] ++ sid ∷ [])

unfoldable pub fill : (workers except : ℕ) → List (List ℕ) → List ℕ → List (List ℕ)
fill workers except buckets [] = buckets
fill workers except buckets (sid ∷ sids) =
    fill workers except
      (if is_wanted workers except sid
        then add_to_bucket buckets (owner_worker_from_id sid) sid
        else buckets)
      sids

unfoldable pub bucketize : (workers except : ℕ) → List ℕ → List (List ℕ)
bucketize workers except sids = fill workers except (replicate workers []) sids

-- `cw` is the calling worker, `none` on another thread.
abbrev pub is_here : Option ℕ → ℕ → Bool
is_here none worker = false
is_here (some cw) worker = worker == cw

unfoldable pub post_buckets : Option ℕ → ℕ → List (List ℕ) → List Posted
post_buckets cw owner [] = []
post_buckets cw owner ([] ∷ buckets) = post_buckets cw (owner + 1) buckets
post_buckets cw owner ((sid ∷ sids) ∷ buckets) =
    record { worker = owner; at_once = is_here cw owner; job = to_sessions (sid ∷ sids) }
    ∷ post_buckets cw (owner + 1) buckets

unfoldable pub multicast : (ready : Bool) → Option ℕ → (workers : ℕ) → List ℕ → ℕ → List Posted
multicast ready cw workers sids except =
    if not ready then [] else post_buckets cw 0 (bucketize workers except sids)

-- The job on each of the workers from `worker` on, `n` of them.
unfoldable pub fan_out : Option ℕ → ℕ → ℕ → Job → List Posted
fan_out cw worker zero job = []
fan_out cw worker (suc n) job =
    record { worker = worker; at_once = is_here cw worker; job = job }
    ∷ fan_out cw (worker + 1) n job

unfoldable pub broadcast : (ready : Bool) → Option ℕ → (workers : ℕ) → Job → List Posted
broadcast ready cw workers job = if not ready then [] else fan_out cw 0 workers job
