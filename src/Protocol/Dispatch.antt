-- ===== src/Protocol/Dispatch.antt =====
-- The table of handlers: Dispatcher of engine/include/hypernet/protocol/Dispatcher.hpp. A handler
-- is a name, `none` an empty function.
use network_engine_portfolio.Prelude.{
  ℕ, ◌≡◌, refl, ap, sym, ◌∙◌, Bool, true, false, Option, none, some, List, [], ◌∷◌, if◌then◌else◌,
  Bool-cases, Option-cases, inl, inr,
}
use network_engine_portfolio.Map.{Map, find, emplace, erase_key, same_id}
use network_engine_portfolio.Map.Laws.{same_id-Decides, find-put}

abbrev pub is_some : {A : Type 0} → Option A → Bool
is_some none = false
is_some (some _) = true

unfoldable pub register_handler : Map ℕ ℕ → ℕ → Option ℕ → Bool × Map ℕ ℕ
register_handler handlers opcode none = (false, handlers)
register_handler handlers opcode (some handler) = (
  if is_some (find same_id handlers opcode) then false else true,
  emplace same_id handlers opcode handler,
)

-- `erase` tells how many entries went.
unfoldable pub unregister_handler : Map ℕ ℕ → ℕ → Bool × Map ℕ ℕ
unregister_handler handlers opcode =
    (is_some (find same_id handlers opcode), erase_key same_id handlers opcode)

-- The handler that is called, `none` where `dispatch` returns false.
unfoldable pub dispatch : Map ℕ ℕ → ℕ → Option ℕ
dispatch handlers opcode = find same_id handlers opcode

-- Several registrations, in order, as an application makes them.
unfoldable pub register_all : Map ℕ ℕ → List (ℕ × ℕ) → Map ℕ ℕ
register_all handlers [] = handlers
register_all handlers ((opcode, handler) ∷ more) =
    register_all (register_handler handlers opcode (some handler)).1 more

-- Of two handlers, the one that was there.
abbrev first_of : Option ℕ → Option ℕ → Option ℕ
first_of none h = h
first_of (some g) h = some g

first_of-none : (o : Option ℕ) → o ≡ first_of o none
first_of-none none = refl
first_of-none (some g) = refl

first_of_assoc : (a b c : Option ℕ) → first_of (first_of a b) c ≡ first_of a (first_of b c)
first_of_assoc none b c = refl
first_of_assoc (some g) b c = refl

dispatch-registered :
    (handlers : Map ℕ ℕ) (opcode opcode' handler : ℕ)
    → dispatch (register_handler handlers opcode (some handler)).1 opcode'
      ≡ first_of (dispatch handlers opcode') (if same_id opcode opcode' then some handler else none)
unfolding dispatch register_handler emplace
dispatch-registered handlers opcode opcode' handler =
    let found : same_id opcode opcode' ≡ true
        → find same_id handlers opcode' ≡ find same_id handlers opcode =
      λ t. ap (find same_id handlers) (sym ((same_id-Decides opcode opcode').0 t)) in
    elim (Bool-cases (same_id opcode opcode')) [
      | inl t ↦ elim (Option-cases (find same_id handlers opcode)) [
        | inl e ↦
            rw
              (
                emplace,
                e,
                find-put same_id same_id-Decides handlers opcode opcode' handler,
                t,
                found t,
                e,
              )
              refl
        | inr (g, e) ↦ rw (emplace, e, t, found t, e) refl
      ]
      | inr f ↦ elim (Option-cases (find same_id handlers opcode)) [
        | inl e ↦
            rw (emplace, e, find-put same_id same_id-Decides handlers opcode opcode' handler, f)
              (first_of-none (find same_id handlers opcode'))
        | inr (g, e) ↦ rw (emplace, e, f) (first_of-none (find same_id handlers opcode'))
      ]
    ]

find-first :
    (opcode opcode' handler : ℕ) (more : List (ℕ × ℕ))
    → first_of (if same_id opcode opcode' then some handler else none) (find same_id more opcode')
      ≡ find same_id ((opcode, handler) ∷ more) opcode'
unfolding find
find-first opcode opcode' handler more = elim (Bool-cases (same_id opcode opcode')) [
  | inl t ↦ rw t refl
  | inr f ↦ rw f refl
]

registered :
    (handlers : Map ℕ ℕ) (regs : List (ℕ × ℕ)) (opcode : ℕ)
    → dispatch (register_all handlers regs) opcode
      ≡ first_of (dispatch handlers opcode) (find same_id regs opcode)
unfolding register_all find
registered handlers [] opcode = first_of-none (dispatch handlers opcode)
registered handlers ((opcode', handler) ∷ more) opcode =
    registered (register_handler handlers opcode' (some handler)).1 more opcode
    ∙ ap (λ o. first_of o (find same_id more opcode))
        (dispatch-registered handlers opcode' opcode handler)
    ∙ first_of_assoc (dispatch handlers opcode)
        (if same_id opcode' opcode then some handler else none) (find same_id more opcode)
    ∙ ap (first_of (dispatch handlers opcode)) (find-first opcode' opcode handler more)

-- After any registrations, an opcode that had a handler dispatches to that one, and any other
-- opcode to the first handler registered for it, if there is one.
pub dispatch-first :
    (handlers : Map ℕ ℕ) (regs : List (ℕ × ℕ)) (opcode : ℕ)
    → dispatch (register_all handlers regs) opcode ≡ (
        if is_some (dispatch handlers opcode)
        then dispatch handlers opcode
        else find same_id regs opcode)
dispatch-first handlers regs opcode =
    registered handlers regs opcode ∙ either (dispatch handlers opcode) (find same_id regs opcode)
  where
    either : (a b : Option ℕ) → first_of a b ≡ (if is_some a then a else b)
    either none b = refl
    either (some g) b = refl
