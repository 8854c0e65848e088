-- ===== src/Http/Length.antt =====
-- The Content-Length of a request.
use lorawanatd_canarin.Base.{
  ℕ, ◌≡◌, ◌≤◌, ◌<◌, ◌^◌, ◌++◌, [], refl, subst, true, false, Bytes, ok, fault, arith, ltb, length,
  print_u, strtol, strtol-print_u, NoNul-print_u, strncpy-whole, append-nil, ◌%◌,
}
use lorawanatd_canarin.Http.Request.{PhrHeader, content_length, size_of_int, tmp_size}

strtol-number : (n : ℕ) → n < 2 ^ 32 → strtol (print_u n) ≡ record { value = n; erange = false }
strtol-number n small =
    subst (λ s. strtol s ≡ record { value = n; erange = false }) (append-nil (print_u n))
      (strtol-print_u n [] small tt)

-- A Content-Length below 2^31, in at most 15 digits, is read as the number that it is.
pub content_length-number :
    (h : PhrHeader) (n : ℕ) (rest : Bytes)
    → h.value ≡ print_u n ++ rest
    → h.value_len ≡ length (print_u n)
    → length (print_u n) < tmp_size
    → n < 2 ^ 31
    → content_length h ≡ ok n
unfolding content_length size_of_int
content_length-number h n rest text len short small =
    rw (text, len)
      (rw (fits, strncpy-whole (print_u n) rest (NoNul-print_u n), strtol-number n (omega arith))
        (rw (low, positive) refl))
  where
    fits : ltb (length (print_u n)) tmp_size ≡ true
    fits = ground arith

    low : n % 2 ^ 32 ≡ n
    low = omega arith

    positive : ltb n (2 ^ 31) ≡ true
    positive = ground arith

-- A Content-Length of 16 bytes or more is written past the buffer into which it is copied.
content_length-long : (h : PhrHeader) → tmp_size ≤ h.value_len → content_length h ≡ fault
unfolding content_length
content_length-long h long = let e : ltb h.value_len tmp_size ≡ false = ground arith in rw e refl
