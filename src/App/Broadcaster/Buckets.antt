-- ===== src/App/Broadcaster/Buckets.antt =====
-- Whom a multicast reaches.
use network_engine_portfolio.Prelude.{
  ℕ, zero, suc, ◌+◌, ◌<◌, ◌≡◌, refl, ap, sym, ◌∙◌, Bool, true, false, not, ◌&&◌, ◌||◌, Option, List,
  [], ◌∷◌, ◌++◌, ◌==◌, ltb, if◌then◌else◌, length, get_or, replicate, arith, Bool-cases, inl, inr,
  length-set, length-replicate, ==_iff, append_assoc, append-nil,
}
use network_engine_portfolio.Core.Timer.Slots.{get_or-set}
use network_engine_portfolio.Net.Manager.{owner_worker_from_id}
use network_engine_portfolio.App.Broadcaster.{
  Job, to_session, to_sessions, to_all, to_scope, to_topic, Posted, is_wanted, add_to_bucket, fill,
  bucketize, post_buckets, multicast,
}

-- The sessions asked for that are owned by a worker of the program, in the order of the call, but
-- for 0 and the excepted one.
unfoldable pub wanted_on : (workers except worker : ℕ) → List ℕ → List ℕ
wanted_on workers except worker [] = []
wanted_on workers except worker (sid ∷ sids) =
    let rest = wanted_on workers except worker sids in
    if (sid == 0) || ((sid == except) || not (ltb worker workers))
    then rest
    else if owner_worker_from_id sid == worker
    then sid ∷ rest
    else rest

-- The sessions that the posted jobs name on a worker.
abbrev pub sids_of : Job → List ℕ
sids_of (to_session sid) = sid ∷ []
sids_of (to_sessions sids) = sids
sids_of (to_all except) = []
sids_of (to_scope scope except) = []
sids_of (to_topic scope topic except) = []

unfoldable pub named_on : ℕ → List Posted → List ℕ
named_on worker [] = []
named_on worker (p ∷ posts) =
    (if p.worker == worker then sids_of p.job else []) ++ named_on worker posts

named_before :
    (cw : Option ℕ) (owner worker : ℕ) (buckets : List (List ℕ))
    → worker < owner
    → named_on worker (post_buckets cw owner buckets) ≡ []
unfolding named_on post_buckets
named_before cw owner worker [] h = refl
named_before cw owner worker ([] ∷ buckets) h =
    named_before cw (owner + 1) worker buckets (omega (arith, h))
named_before cw owner worker ((sid ∷ sids) ∷ buckets) h =
    let other : (owner == worker) ≡ false = ground arith in
    rw other (named_before cw (owner + 1) worker buckets (omega (arith, h)))

named-post_buckets :
    (cw : Option ℕ) (owner i : ℕ) (buckets : List (List ℕ))
    → named_on (owner + i) (post_buckets cw owner buckets) ≡ get_or buckets i []
unfolding named_on post_buckets
named-post_buckets cw owner i [] = refl
named-post_buckets cw owner zero ([] ∷ buckets) =
    named_before cw (owner + 1) (owner + 0) buckets (omega arith)
named-post_buckets cw owner (suc i) ([] ∷ buckets) =
    ap (λ (w : ℕ). named_on w (post_buckets cw (owner + 1) buckets)) (omega arith)
    ∙ named-post_buckets cw (owner + 1) i buckets
named-post_buckets cw owner zero ((sid ∷ sids) ∷ buckets) =
    let here : (owner == (owner + 0)) ≡ true = ground arith in
    rw here (
      ap (λ t. (sid ∷ sids) ++ t) (named_before cw (owner + 1) (owner + 0) buckets (omega arith))
      ∙ append-nil (sid ∷ sids))
named-post_buckets cw owner (suc i) ((sid ∷ sids) ∷ buckets) =
    let other : (owner == (owner + suc i)) ≡ false = ground arith in
    rw other (
      ap (λ (w : ℕ). named_on w (post_buckets cw (owner + 1) buckets)) (omega arith)
      ∙ named-post_buckets cw (owner + 1) i buckets)

true_not_false : true ≡ false → ⊥
true_not_false e = absurd cc

-- The two ways to choose agree: `m` is whether the owner is the worker, `kw` and `ko` whether the
-- one and the other are workers of the program.
chosen :
    (z e kw ko m : Bool) (sid : ℕ) (rest : List ℕ)
    → (m ≡ true → ko ≡ kw)
    → (if z || (e || not kw) then rest else if m then sid ∷ rest else rest)
      ≡ (if (not z && (not e && ko)) && m then sid ∷ [] else []) ++ rest
chosen true e kw ko m sid rest h = refl
chosen false true kw ko m sid rest h = refl
chosen false false true true true sid rest h = refl
chosen false false true false true sid rest h = absurd (true_not_false (sym (h refl)))
chosen false false false true true sid rest h = absurd (true_not_false (h refl))
chosen false false false false true sid rest h = refl
chosen false false true true false sid rest h = refl
chosen false false true false false sid rest h = refl
chosen false false false true false sid rest h = refl
chosen false false false false false sid rest h = refl

wanted_on-cons :
    (workers except worker sid : ℕ) (sids : List ℕ)
    → wanted_on workers except worker (sid ∷ sids)
      ≡ (if is_wanted workers except sid && (owner_worker_from_id sid == worker)
          then sid ∷ []
          else [])
        ++ wanted_on workers except worker sids
unfolding wanted_on
wanted_on-cons workers except worker sid sids =
    chosen (sid == 0) (sid == except) (ltb worker workers) (ltb (owner_worker_from_id sid) workers)
      (owner_worker_from_id sid == worker) sid (wanted_on workers except worker sids)
      (λ e. ap (λ (w : ℕ). ltb w workers) ((==_iff (owner_worker_from_id sid) worker).0 e))

third : (a b c : Bool) → (a && (b && c)) ≡ true → c ≡ true
third true true c e = e
third true false c e = absurd cc
third false b c e = absurd cc

added :
    (buckets : List (List ℕ)) (owner worker sid : ℕ)
    → owner < length buckets
    → get_or (add_to_bucket buckets owner sid) worker []
      ≡ get_or buckets worker [] ++ (if owner == worker then sid ∷ [] else [])
unfolding add_to_bucket
added buckets owner worker sid h =
    get_or-set buckets owner worker (get_or buckets owner [] ++ sid ∷ []) [] h
    ∙ elim (Bool-cases (owner == worker)) [
      | inl t ↦ rw t (ap (λ (w : ℕ). get_or buckets w [] ++ sid ∷ []) ((==_iff owner worker).0 t))
      | inr f ↦ rw f (sym (append-nil (get_or buckets worker [])))
    ]

filled :
    (workers except worker : ℕ) (buckets : List (List ℕ)) (sids : List ℕ)
    → length buckets ≡ workers
    → get_or (fill workers except buckets sids) worker []
      ≡ get_or buckets worker [] ++ wanted_on workers except worker sids
unfolding fill wanted_on add_to_bucket
filled workers except worker buckets [] h = sym (append-nil (get_or buckets worker []))
filled workers except worker buckets (sid ∷ sids) h =
    let step : get_or (fill workers except buckets (sid ∷ sids)) worker []
        ≡ get_or buckets worker []
          ++ ((if is_wanted workers except sid && (owner_worker_from_id sid == worker)
                then sid ∷ []
                else [])
              ++ wanted_on workers except worker sids) =
      elim (Bool-cases (is_wanted workers except sid)) [
        | inl t ↦
            let known : owner_worker_from_id sid < workers = ground (
              arith,
              third (not (sid == 0)) (not (sid == except)) (ltb (owner_worker_from_id sid) workers)
                  t,
            ) in
            rw t (
              filled workers except worker (add_to_bucket buckets (owner_worker_from_id sid) sid)
                sids (length-set buckets (owner_worker_from_id sid) _ ∙ h)
              ∙ ap (λ t. t ++ wanted_on workers except worker sids)
                  (added buckets (owner_worker_from_id sid) worker sid (omega (arith, known, h)))
              ∙ append_assoc (get_or buckets worker [])
                  (if owner_worker_from_id sid == worker then sid ∷ [] else [])
                  (wanted_on workers except worker sids))
        | inr f ↦ rw f (filled workers except worker buckets sids h)
      ] in
    step
    ∙ ap (λ t. get_or buckets worker [] ++ t) (sym (wanted_on-cons workers except worker sid sids))

empty_bucket : (n i : ℕ) → Path (List ℕ) (get_or (replicate n []) i []) []
empty_bucket zero i = refl
empty_bucket (suc n) zero = refl
empty_bucket (suc n) (suc i) = empty_bucket n i

-- The jobs that a multicast posts name on every worker, in the order of the call, exactly the
-- sessions asked for that are owned by it, are not 0 or the excepted one, and whose owner is a
-- worker of the program.
pub named-multicast :
    (cw : Option ℕ) (workers except worker : ℕ) (sids : List ℕ)
    → named_on worker (multicast true cw workers sids except) ≡ wanted_on workers except worker sids
unfolding multicast bucketize
named-multicast cw workers except worker sids =
    ap (λ (w : ℕ). named_on w (post_buckets cw 0 (bucketize workers except sids))) (omega arith)
    ∙ named-post_buckets cw 0 worker (bucketize workers except sids)
    ∙ filled workers except worker (replicate workers []) sids (length-replicate workers [])
    ∙ ap (λ t. t ++ wanted_on workers except worker sids) (empty_bucket workers worker)
