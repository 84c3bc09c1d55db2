-- ===== src/Net/EventLoop/Fds.antt =====
-- The contexts of the descriptors.
use network_engine_portfolio.Prelude.{
  ℕ, ◌≡◌, refl, ap, ◌∙◌, Bool, none, some, List, ◌∷◌, if◌then◌else◌,
}
use network_engine_portfolio.Map.{find, erase_key, same_id}
use network_engine_portfolio.Map.Laws.{same_id-Decides, same_self, find-erase_key}
use network_engine_portfolio.Core.Timer.{TimerWheel}
use network_engine_portfolio.Net.EventLoop.{Loop, World, remove_fd, dispatch_event, dispatch_events}

module _ {K A : Type 0} (handle : (handler events : ℕ) → World K A → World K A) where
  -- An event of a descriptor that was removed, by an earlier event say, is passed over.
  pub removed-dispatch_events :
      (wheel : TimerWheel K) (l : Loop A) (ok : Bool) (fd events : ℕ) (es : List (ℕ × ℕ))
      → dispatch_events handle (wheel, (remove_fd ok l (some fd)).1) ((fd, events) ∷ es)
        ≡ dispatch_events handle (wheel, (remove_fd ok l (some fd)).1) es
  unfolding dispatch_events dispatch_event remove_fd
  removed-dispatch_events wheel l ok fd events es =
      ap (λ w. dispatch_events handle w es) (rw (dispatch_event, gone) refl)
    where
      gone : find same_id (erase_key same_id l.fd_contexts fd) fd ≡ none
      gone =
          find-erase_key same_id same_id-Decides l.fd_contexts fd fd
          ∙ ap (λ b. if b then none else find same_id l.fd_contexts fd)
              (same_self same_id same_id-Decides fd)
