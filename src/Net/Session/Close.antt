-- ===== src/Net/Session/Close.antt =====
-- How a session closes: once, and the manager hears of it at most once.
use network_engine_portfolio.Prelude.{
  ℕ, ◌+◌, ◌≡◌, refl, Bool, true, false, not, ◌||◌, Option, none, some, List, [], ◌∷◌, ◌++◌, ◌==◌,
  if◌then◌else◌,
}
use network_engine_portfolio.Net.Session.{
  connected, closed, CloseReason, is_normal_close_reason, Effect, remove_fd, close_socket,
  count_error, session_closed, Core, deregister, close_effects, begin_close, close_from_manager,
}

-- The two ways in which a session is closed.
pub data Close : Type 0 where
  by_session : CloseReason → ℕ → Close
  by_manager : Close

abbrev pub close : Core → Close → Core
close c (by_session reason err) = begin_close c reason err
close c by_manager = close_from_manager c

abbrev pub close_all : Core → List Close → Core
close_all c [] = c
close_all c (x ∷ xs) = close_all (close c x) xs

-- What the first of the closes does.
abbrev pub first_effects : Core → Close → List Effect
first_effects c (by_session reason err) = close_effects c reason err
first_effects c by_manager = deregister c.fd ++ close_socket ∷ []

abbrev pub shut : Core → List Effect → Core
shut c effects = record c { state = closed; fd = none; log = c.log ++ effects }

close_lem : (c : Core) (x : Close) → c.state ≡ connected → close c x ≡ shut c (first_effects c x)
unfolding begin_close close_from_manager
close_lem c (by_session reason err) up = rw up refl
close_lem c by_manager up = rw up refl

close-closed : (c : Core) (x : Close) → c.state ≡ closed → close c x ≡ c
unfolding begin_close close_from_manager
close-closed c (by_session reason err) up = rw up refl
close-closed c by_manager up = rw up refl

close_all-closed : (c : Core) (xs : List Close) → c.state ≡ closed → close_all c xs ≡ c
close_all-closed c [] up = refl
close_all-closed c (x ∷ xs) up = rw (close-closed c x up) (close_all-closed c xs up)

-- However many closes reach a connected session, by the session or by its manager and in whatever
-- order, it ends closed, and only the first of them has an effect.
pub close_all_lem :
    (c : Core) (x : Close) (xs : List Close)
    → c.state ≡ connected
    → close_all c (x ∷ xs) ≡ shut c (first_effects c x)
close_all_lem c x xs up =
    rw (close_lem c x up) (close_all-closed (shut c (first_effects c x)) xs refl)

-- How often an effect occurs.
abbrev pub is_session_closed : Effect → ℕ
is_session_closed session_closed = 1
is_session_closed _ = 0

abbrev pub is_count_error : Effect → ℕ
is_count_error count_error = 1
is_count_error _ = 0

abbrev pub is_close_socket : Effect → ℕ
is_close_socket close_socket = 1
is_close_socket _ = 0

abbrev pub is_remove_fd : Effect → ℕ
is_remove_fd (remove_fd _) = 1
is_remove_fd _ = 0

abbrev pub count : (Effect → ℕ) → List Effect → ℕ
count p [] = 0
count p (e ∷ es) = p e + count p es

abbrev pub of_bool : Bool → ℕ
of_bool true = 1
of_bool false = 0

abbrev parts : Option ℕ → Bool → Bool → List Effect
parts fd e m =
    deregister fd
    ++ (close_socket ∷ []
        ++ ((if e then count_error ∷ [] else []) ++ (if m then session_closed ∷ [] else [])))

counts :
    (fd : Option ℕ) (e m : Bool)
    → (count is_close_socket (parts fd e m) ≡ 1)
      × (count is_session_closed (parts fd e m) ≡ of_bool m)
      × (count is_count_error (parts fd e m) ≡ of_bool e)
unfolding deregister
counts none true true = (refl, refl, refl)
counts none true false = (refl, refl, refl)
counts none false true = (refl, refl, refl)
counts none false false = (refl, refl, refl)
counts (some n) true true = (refl, refl, refl)
counts (some n) true false = (refl, refl, refl)
counts (some n) false true = (refl, refl, refl)
counts (some n) false false = (refl, refl, refl)

counts_by_manager :
    (fd : Option ℕ)
    → (count is_close_socket (deregister fd ++ close_socket ∷ []) ≡ 1)
      × (count is_session_closed (deregister fd ++ close_socket ∷ []) ≡ 0)
      × (count is_count_error (deregister fd ++ close_socket ∷ []) ≡ 0)
unfolding deregister
counts_by_manager none = (refl, refl, refl)
counts_by_manager (some n) = (refl, refl, refl)

-- A close by the session itself closes the socket once, tells the manager once if it has one, and
-- counts an error exactly for an errno or a reason that is not a normal one; a close by the
-- manager closes the socket once and does neither.
pub first_effects_lem :
    (c : Core) (reason : CloseReason) (err : ℕ)
    → (count is_close_socket (first_effects c (by_session reason err)) ≡ 1)
      × (count is_session_closed (first_effects c (by_session reason err)) ≡ of_bool c.has_manager)
      × (count is_count_error (first_effects c (by_session reason err))
          ≡ of_bool (not (err == 0) || not (is_normal_close_reason reason)))
      × (count is_close_socket (first_effects c by_manager) ≡ 1)
      × (count is_session_closed (first_effects c by_manager) ≡ 0)
      × (count is_count_error (first_effects c by_manager) ≡ 0)
unfolding close_effects
first_effects_lem c reason err =
    let (a, b, d) =
      counts c.fd (not (err == 0) || not (is_normal_close_reason reason)) c.has_manager in
    let (x, y, z) = counts_by_manager c.fd in (a, b, d, x, y, z)
