-- ===== src/Util/Trim.antt =====
-- `ltrim`, `rtrim` and `trim` of src/util.c.
use lorawanatd_canarin.Base.{
  ℕ, zero, suc, ◌+◌, ◌-◌, ◌^◌, ◌%◌, ◌≤◌, ◌<◌, ◌≡◌, refl, ap, ◌∙◌, subst, append_assoc, Bool, true,
  false, ◌&&◌, ◌||◌, [], ◌∷◌, ◌++◌, arith, Bytes, Outcome, ok, fault, ◌==◌, ltb, leb, if◌then◌else◌,
  length, get_or, take, drop, All, length-append, take-length-append, drop-length-append,
}

-- `wspace_chars[]` with its size from `sizeof`, so the terminating NUL counts as white space.
unfoldable pub is_wspace : ℕ → Bool
is_wspace c = c == b'\n' || (c == b'\r' || (c == b'\t' || (c == b' ' || c == 0)))

-- The buffer is the list of its `len` bytes.
unfoldable pub ltrim : Bytes → ℕ
unfolding is_wspace
ltrim [] = 0
ltrim (c ∷ s) = if is_wspace c then suc (ltrim s) else 0

abbrev size_max : ℕ
size_max = 2 ^ 64 - 1

-- The loop of `rtrim` from `i` on, with one more than `i` as its argument. The `int` -1 that the
-- loop ends with becomes the largest `size_t`.
unfoldable pub rtrim_from : ℕ → Bytes → ℕ
unfolding is_wspace
rtrim_from zero buf = size_max
rtrim_from (suc i) buf = if is_wspace (get_or buf i 0) then rtrim_from i buf else i

unfoldable pub rtrim : Bytes → ℕ
unfolding rtrim_from
rtrim buf = rtrim_from (length buf) buf

-- `*len` is a `size_t` that wraps. The copy reads up to `ltpos + *len` and the terminator is
-- written at `*len`; both have to stay within the `cap` bytes behind the pointer.
unfoldable pub trim : ℕ → Bytes → Outcome Bytes
unfolding ltrim rtrim
trim cap buf =
    let ltpos = ltrim buf in
    let len = (rtrim buf + 2 ^ 64 - ltpos + 1) % 2 ^ 64 in
    if len == 0
    then ok []
    else if leb (ltpos + len) cap && ltb len cap
    then ok (take len (drop ltpos buf))
    else fault

abbrev pub IsWspace : ℕ → Type 0
IsWspace c = is_wspace c ≡ true

-- The text begins and ends with bytes that are no white space.
pub record IsTrimmed (body : Bytes) : Type 0 where
  pub nonempty : 0 < length body
  pub first : is_wspace (get_or body 0 0) ≡ false
  pub last : is_wspace (get_or body (length body - 1) 0) ≡ false

ltrim-append :
    (pre rest : Bytes)
    → All IsWspace pre
    → is_wspace (get_or rest 0 0) ≡ false
    → ltrim (pre ++ rest) ≡ length pre
unfolding ltrim
ltrim-append [] [] ws h = refl
ltrim-append [] (c ∷ rest) ws h = rw h
ltrim-append (c ∷ pre) rest ws h = rw ws.0 (ap suc (ltrim-append pre rest ws.1 h))

ltrim-All : (buf : Bytes) → All IsWspace buf → ltrim buf ≡ length buf
unfolding ltrim
ltrim-All [] ws = refl
ltrim-All (c ∷ buf) ws = rw ws.0 (ap suc (ltrim-All buf ws.1))

get_or-append_left :
    (xs ys : Bytes) (i d : ℕ) → i < length xs → get_or (xs ++ ys) i d ≡ get_or xs i d
get_or-append_left [] ys i d h = elim h [ ]
get_or-append_left (x ∷ xs) ys zero d h = refl
get_or-append_left (x ∷ xs) ys (suc i) d h = get_or-append_left xs ys i d (omega arith)

All-get_or :
    (xs : Bytes) (i : ℕ) → All IsWspace xs → i < length xs → is_wspace (get_or xs i 0) ≡ true
All-get_or [] i ws h = elim h [ ]
All-get_or (x ∷ xs) zero ws h = ws.0
All-get_or (x ∷ xs) (suc i) ws h = All-get_or xs i ws.1 (omega arith)

get_or-append_right :
    (xs ys : Bytes) (i d : ℕ) → get_or (xs ++ ys) (length xs + i) d ≡ get_or ys i d
get_or-append_right [] ys i d = let e : 0 + i ≡ i = omega arith in rw e
get_or-append_right (x ∷ xs) ys i d =
    let e : suc (length xs) + i ≡ suc (length xs + i) = omega arith in
    rw e (get_or-append_right xs ys i d)

-- Trailing white space is skipped.
rtrim_from-skip :
    (k : ℕ) (xs ys : Bytes)
    → All IsWspace ys
    → k ≤ length ys
    → rtrim_from (length xs + k) (xs ++ ys) ≡ rtrim_from (length xs) (xs ++ ys)
unfolding rtrim_from
rtrim_from-skip zero xs ys ws h = let e : length xs + 0 ≡ length xs = omega arith in rw e
rtrim_from-skip (suc k) xs ys ws h =
    let e : length xs + suc k ≡ suc (length xs + k) = omega arith in
    let w : is_wspace (get_or (xs ++ ys) (length xs + k) 0) ≡ true = get_or-wspace in
    rw e (rw w (rtrim_from-skip k xs ys ws (omega arith)))
  where
    get_or-wspace : is_wspace (get_or (xs ++ ys) (length xs + k) 0) ≡ true
    get_or-wspace = rw (get_or-append_right xs ys k 0) (All-get_or ys k ws (omega arith))

rtrim_from-append :
    (n : ℕ) (xs ys : Bytes)
    → n ≡ length xs + length ys
    → All IsWspace ys
    → 0 < length xs
    → is_wspace (get_or xs (length xs - 1) 0) ≡ false
    → rtrim_from n (xs ++ ys) ≡ length xs - 1
unfolding rtrim_from
rtrim_from-append n [] ys e ws h last = elim h [ ]
rtrim_from-append n (x ∷ xs) ys e ws h last =
    rw e (rtrim_from-skip (length ys) (x ∷ xs) ys ws (omega arith) ∙ stop)
  where
    pred_len : suc (length xs) - 1 ≡ length xs
    pred_len = omega arith

    ends : is_wspace (get_or (x ∷ xs) (length xs) 0) ≡ false
    ends = rw pred_len at last

    stop : rtrim_from (suc (length xs)) (x ∷ (xs ++ ys)) ≡ suc (length xs) - 1
    stop = rw (get_or-append_left (x ∷ xs) ys (length xs) 0 (omega arith), ends) (rw pred_len)

rtrim-All : (buf : Bytes) → All IsWspace buf → rtrim buf ≡ size_max
unfolding rtrim
rtrim-All buf ws = all_from (length buf) (omega arith)
  where
    all_from : (n : ℕ) → n ≤ length buf → rtrim_from n buf ≡ size_max
    all_from zero h = unfold rtrim_from in refl
    all_from (suc n) h = unfold rtrim_from in rw (All-get_or buf n ws h) (all_from n (omega arith))

-- `trim` once the two ends are known.
trim_within :
    (cap lt rt n : ℕ) (buf : Bytes)
    → ltrim buf ≡ lt
    → rtrim buf ≡ rt
    → (rt + 2 ^ 64 - lt + 1) % 2 ^ 64 ≡ n
    → 0 < n
    → lt + n ≤ cap
    → n < cap
    → trim cap buf ≡ ok (take n (drop lt buf))
unfolding trim
trim_within cap lt rt n buf l r e pos fits room = rw (l, r) (rw e (ground arith))

trim_beyond :
    (cap lt rt n : ℕ) (buf : Bytes)
    → ltrim buf ≡ lt
    → rtrim buf ≡ rt
    → (rt + 2 ^ 64 - lt + 1) % 2 ^ 64 ≡ n
    → cap ≤ n
    → 0 < n
    → trim cap buf ≡ fault
unfolding trim
trim_beyond cap lt rt n buf l r e big pos = rw (l, r) (rw e (ground arith))

ltrim-trimmed :
    (pre body post : Bytes)
    → All IsWspace pre
    → IsTrimmed body
    → ltrim (pre ++ (body ++ post)) ≡ length pre
ltrim-trimmed pre body post ws t =
    ltrim-append pre (body ++ post) ws (rw (get_or-append_left body post 0 0 t.nonempty) t.first)

rtrim-trimmed :
    (pre body post : Bytes)
    → All IsWspace post
    → IsTrimmed body
    → rtrim (pre ++ (body ++ post)) ≡ length pre + length body - 1
rtrim-trimmed pre body post ws t =
    subst (λ buf. rtrim buf ≡ length pre + length body - 1) (append_assoc pre body post)
      (unfold rtrim in
        rtrim_from-append _ (pre ++ body) post (length-append (pre ++ body) post) ws
          (omega (arith, long, t.nonempty)) last_byte
        ∙ omega (arith, long))
  where
    long : length (pre ++ body) ≡ length pre + length body
    long = length-append pre body

    at_end : length (pre ++ body) - 1 ≡ length pre + (length body - 1)
    at_end = omega (arith, long, t.nonempty)

    last_byte : is_wspace (get_or (pre ++ body) (length (pre ++ body) - 1) 0) ≡ false
    last_byte = rw (at_end, get_or-append_right pre body (length body - 1) 0) t.last

-- White space around a text is cut off: a buffer that holds a text between white space, with
-- room for the terminator, is left with that text.
pub trim_lem :
    (cap : ℕ) (pre body post : Bytes)
    → All IsWspace pre
    → All IsWspace post
    → IsTrimmed body
    → length pre + length body ≤ cap
    → length body < cap
    → cap < 2 ^ 31
    → trim cap (pre ++ (body ++ post)) ≡ ok body
trim_lem cap pre body post wpre wpost t fits room small =
    trim_within cap (length pre) (length pre + length body - 1) (length body) _
      (ltrim-trimmed pre body post wpre t) (rtrim-trimmed pre body post wpost t)
      (omega (arith, t.nonempty)) t.nonempty fits room
    ∙ rw (drop-length-append pre (body ++ post), take-length-append body post)

-- A buffer that holds nothing but white space, and is not empty, makes `trim` write past it.
pub trim_blank :
    (cap : ℕ) (buf : Bytes)
    → All IsWspace buf
    → 0 < length buf
    → length buf ≤ cap
    → cap < 2 ^ 31
    → trim cap buf ≡ fault
trim_blank cap buf ws some_byte fits small =
    trim_beyond cap (length buf) size_max (2 ^ 64 - length buf) buf (ltrim-All buf ws)
      (rtrim-All buf ws) (omega arith) (omega arith) (omega arith)

-- An empty buffer stays empty.
pub trim_empty : (cap : ℕ) → trim cap [] ≡ ok []
unfolding trim ltrim rtrim rtrim_from
trim_empty cap = refl
