-- ===== src/Monitoring/Http/RoundTrip.antt =====
-- The request line, printed and parsed.
use network_engine_portfolio.Prelude.{
  ℕ, suc, ◌+◌, ◌-◌, ◌≤◌, ◌≡◌, refl, ap, ap₂, sym, ◌∙◌, Bool, true, false, ◌||◌, leb, some, List, [],
  ◌∷◌, ◌++◌, ◌==◌, if◌then◌else◌, length, take, drop, same_bytes, take-add, take-append,
  drop-append, append_assoc, length-append, arith, Bool-cases, inl, inr,
}
use network_engine_portfolio.Monitoring.Http.Text.{get_method, metrics_path, metrics_query}
use network_engine_portfolio.Monitoring.Http.{
  behind, find_byte, find_crlf, find_eol, split_line, parse_request_target, same_bytes, starts_with,
  Texts, respond, request_buffer_size, answer_request, handle_client,
}

-- Whether a byte is in a text.
unfoldable pub has_byte : ℕ → List ℕ → Bool
has_byte b [] = false
has_byte b (x ∷ xs) = if x == b then true else has_byte b xs

pub find-append :
    (b : ℕ) (xs ys : List ℕ) → has_byte b xs ≡ false → find_byte b (xs ++ b ∷ ys) ≡ some (length xs)
unfolding find_byte has_byte
find-append b [] ys h = let self : (b == b) ≡ true = ground arith in rw self refl
find-append b (x ∷ xs) ys h = elim (Bool-cases (x == b)) [
  | inl t ↦ absurd (true_false (sym (rw (has_byte, t) refl) ∙ h))
  | inr f ↦ rw f (
      ap behind (find-append b xs ys (sym (rw (has_byte, f) refl) ∙ h))
      ∙ ap (λ (n : ℕ). some n) (omega arith))
]
  where
    true_false : true ≡ false → ⊥
    true_false e = absurd cc

true_not : {b : Bool} → b ≡ true → b ≡ false → ⊥
true_not t f = absurd cc

clean :
    (b x : ℕ) (xs : List ℕ)
    → has_byte b (x ∷ xs) ≡ false
    → ((x == b) ≡ false) × (has_byte b xs ≡ false)
unfolding has_byte
clean b x xs h = elim (Bool-cases (x == b)) [
  | inl t ↦ absurd (true_not (rw (has_byte, t) refl) h)
  | inr f ↦ (f, sym (rw (has_byte, f) refl) ∙ h)
]

pub find_crlf-append :
    (xs ys : List ℕ) → has_byte 13 xs ≡ false → find_crlf (xs ++ 13 ∷ 10 ∷ ys) ≡ some (length xs)
unfolding find_crlf
find_crlf-append [] ys h = refl
find_crlf-append (x ∷ []) ys h = let c = clean 13 x [] h in rw c.0 refl
find_crlf-append (x ∷ y ∷ xs) ys h =
    let c = clean 13 x (y ∷ xs) h in
    rw c.0 (ap behind (find_crlf-append (y ∷ xs) ys c.1) ∙ ap (λ (n : ℕ). some n) (omega arith))

-- A request as a client prints it: the method, the target and the rest of the line, and what comes
-- after it.
unfoldable pub print_request : (method target version rest : List ℕ) → List ℕ
print_request method target version rest =
    (method ++ 32 ∷ (target ++ 32 ∷ version)) ++ 13 ∷ 10 ∷ rest

has_byte_append :
    (b : ℕ) (xs ys : List ℕ)
    → has_byte b xs ≡ false
    → has_byte b ys ≡ false
    → has_byte b (xs ++ ys) ≡ false
unfolding has_byte
has_byte_append b [] ys h h' = h'
has_byte_append b (x ∷ xs) ys h h' =
    let c = clean b x xs h in rw c.0 (has_byte_append b xs ys c.1 h')

-- The text behind the separator at the end of `xs`.
drop_separator : (b : ℕ) (xs ys : List ℕ) → drop (length xs + 1) (xs ++ b ∷ ys) ≡ ys
drop_separator b xs ys =
    ap (λ (l : List ℕ). drop (length xs + 1) l) (sym (append_assoc xs (b ∷ []) ys))
    ∙ drop-append (length xs + 1) (xs ++ b ∷ []) ys (length-append xs (b ∷ []))

split_line-append :
    (method target version : List ℕ)
    → has_byte 32 method ≡ false
    → has_byte 32 target ≡ false
    → split_line (method ++ 32 ∷ (target ++ 32 ∷ version)) ≡ some (method, target)
unfolding split_line
split_line-append method target version m t =
    rw
      (
        split_line,
        find-append 32 method (target ++ 32 ∷ version) m,
        drop_separator 32 method (target ++ 32 ∷ version),
        find-append 32 target version t,
        take-append (length method) method (32 ∷ (target ++ 32 ∷ version)) refl,
        drop_separator 32 method (target ++ 32 ∷ version),
        take-append (length target) target (32 ∷ version) refl,
      )
      refl

-- The first line of a request is parsed into the method and the target that it was printed from,
-- whatever follows it, if they hold no space and the line holds no carriage return.
pub parse_request_target-print_request :
    (method target version rest : List ℕ)
    → has_byte 32 method ≡ false
    → has_byte 32 target ≡ false
    → has_byte 13 (method ++ 32 ∷ (target ++ 32 ∷ version)) ≡ false
    → parse_request_target (print_request method target version rest) ≡ some (method, target)
unfolding parse_request_target find_eol print_request
parse_request_target-print_request method target version rest m t line =
    let text : List ℕ = method ++ 32 ∷ (target ++ 32 ∷ version) in
    rw
      (
        parse_request_target,
        find_eol,
        find_crlf-append text rest line,
        take-append (length text) text (13 ∷ 10 ∷ rest) refl,
      )
      (split_line-append method target version m t)

same_bytes_self : (xs : List ℕ) → same_bytes xs xs ≡ true
same_bytes_self [] = refl
same_bytes_self (x ∷ xs) = let self : (x == x) ≡ true = ground arith in rw self (same_bytes_self xs)

starts_with-append : (prefix xs : List ℕ) → starts_with (prefix ++ xs) prefix ≡ true
unfolding starts_with
starts_with-append prefix xs =
    let long : leb (length prefix) (length (prefix ++ xs)) ≡ true =
      ground (arith, length-append prefix xs) in
    rw (long, take-append (length prefix) prefix xs refl) (same_bytes_self prefix)

abbrev is_metrics : List ℕ → Bool
is_metrics target = same_bytes target metrics_path || starts_with target metrics_query

answered :
    (texts : Texts) (metrics query version rest : List ℕ)
    → has_byte 32 query ≡ false
    → has_byte 13 query ≡ false
    → has_byte 13 version ≡ false
    → answer_request texts metrics (print_request get_method (metrics_query ++ query) version rest)
      ≡ some
          (record { code = 200; reason = texts.ok; media_type = texts.prometheus; body = metrics })
unfolding answer_request respond print_request has_byte
answered texts metrics query version rest q r v =
    let target : List ℕ = metrics_query ++ query in
    let line : has_byte 13 (get_method ++ 32 ∷ (target ++ 32 ∷ version)) ≡ false =
      has_byte_append 13 query (32 ∷ version) r v in
    rw
      (
        answer_request,
        parse_request_target-print_request get_method target version rest refl q line,
        starts_with-append metrics_query query,
      )
      refl

take-length : (n : ℕ) (xs ys : List ℕ) → take (length xs + n) (xs ++ ys) ≡ xs ++ take n ys
take-length n xs ys =
    take-add (length xs) n (xs ++ ys)
    ∙ ap₂ (λ a b. a ++ take n b) (take-append (length xs) xs ys refl)
        (drop-append (length xs) xs ys refl)

-- A request that is cut behind its first line.
take-print_request :
    (n : ℕ) (method target version rest : List ℕ)
    → length (method ++ 32 ∷ (target ++ 32 ∷ version)) + 2 ≤ n
    → take n (print_request method target version rest)
      ≡ print_request method target version
          (take (n - (length (method ++ 32 ∷ (target ++ 32 ∷ version)) + 2)) rest)
unfolding print_request
take-print_request n method target version rest h =
    ap (λ (k : ℕ). take k (line ++ 13 ∷ 10 ∷ rest)) (omega (arith, h))
    ∙ take-length (suc (suc (n - (length line + 2)))) line (13 ∷ 10 ∷ rest)
  where
    line : List ℕ
    line = method ++ 32 ∷ (target ++ 32 ∷ version)

-- Who asks with GET for the metrics with a query that holds no space and no carriage return, in a
-- line that holds no carriage return and that fits with its end into the 4096 bytes of the buffer,
-- whatever comes after the line, gets the text of the counters with 200.
pub handle_client-metrics :
    (texts : Texts) (metrics query version rest : List ℕ)
    → has_byte 32 query ≡ false
    → has_byte 13 query ≡ false
    → has_byte 13 version ≡ false
    → length (get_method ++ 32 ∷ ((metrics_query ++ query) ++ 32 ∷ version)) + 2 ≤ 4096
    → handle_client texts metrics true
        (some (print_request get_method (metrics_query ++ query) version rest))
      ≡ some
          (record { code = 200; reason = texts.ok; media_type = texts.prometheus; body = metrics })
unfolding handle_client
handle_client-metrics texts metrics query version rest q r v fits =
    ap (answer_request texts metrics)
      (take-print_request request_buffer_size get_method (metrics_query ++ query) version rest fits)
    ∙ answered texts metrics query version (take (request_buffer_size - (length line + 2)) rest) q r
        v
  where
    line : List ℕ
    line = get_method ++ 32 ∷ ((metrics_query ++ query) ++ 32 ∷ version)
