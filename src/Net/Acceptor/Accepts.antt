-- ===== src/Net/Acceptor/Accepts.antt =====
-- Which clients a listening socket accepts.
use network_engine_portfolio.Prelude.{ℕ, ◌≡◌, refl, Bool, true, false, some, List, [], ◌∷◌, ◌++◌}
use network_engine_portfolio.Net.Acceptor.{
  Accepted, client, try_again, interrupted, failed, on_acceptable,
}

-- The clients among answers, and whether an answer ends the loop.
unfoldable pub clients : List Accepted → List ℕ
clients [] = []
clients (client fd ∷ answers) = fd ∷ clients answers
clients (try_again ∷ answers) = clients answers
clients (interrupted ∷ answers) = clients answers
clients (failed errno ∷ answers) = clients answers

unfoldable pub stops_loop : Accepted → Bool
stops_loop (client fd) = false
stops_loop try_again = true
stops_loop interrupted = false
stops_loop (failed errno) = true

unfoldable pub goes_on : List Accepted → Bool
goes_on [] = true
goes_on (client fd ∷ answers) = goes_on answers
goes_on (try_again ∷ answers) = false
goes_on (interrupted ∷ answers) = goes_on answers
goes_on (failed errno ∷ answers) = false

module _ {A : Type 0} (on_accept : ℕ → A → A) where
  unfoldable pub accept_all : List ℕ → A → A
  accept_all [] a = a
  accept_all (fd ∷ fds) a = accept_all fds (on_accept fd a)

  -- With edges as events the loop must empty the queue: whatever clients and interruptions come
  -- before EAGAIN or an error, the loop returns at it, and the callback has been called for each
  -- of the clients once, in their order, and for nothing after it.
  pub on_acceptable-accepts :
      (answers : List Accepted) (last : Accepted) (more : List Accepted) (a : A)
      → goes_on answers ≡ true
      → stops_loop last ≡ true
      → on_acceptable on_accept (answers ++ last ∷ more) a ≡ some (accept_all (clients answers) a)
  unfolding on_acceptable goes_on stops_loop clients accept_all
  on_acceptable-accepts [] (client fd) more a ok stop = absurd cc
  on_acceptable-accepts [] try_again more a ok stop = refl
  on_acceptable-accepts [] interrupted more a ok stop = absurd cc
  on_acceptable-accepts [] (failed errno) more a ok stop = refl
  on_acceptable-accepts (client fd ∷ answers) last more a ok stop =
      on_acceptable-accepts answers last more (on_accept fd a) ok stop
  on_acceptable-accepts (try_again ∷ answers) last more a ok stop = absurd cc
  on_acceptable-accepts (interrupted ∷ answers) last more a ok stop =
      on_acceptable-accepts answers last more a ok stop
  on_acceptable-accepts (failed errno ∷ answers) last more a ok stop = absurd cc
