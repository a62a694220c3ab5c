-- ===== src/Fat/Disk/RoundTrip.antt =====
-- src/pennfat/fat.h: the layout of `directory_entry`, written and read.
use pennos.Base.{
  ℕ, zero, suc, ◌+◌, ◌-◌, ◌*◌, ◌/◌, ◌^◌, ◌<◌, ◌≤◌, ◌≡◌, refl, ap, List, [], ◌∷◌, ◌++◌, arith, take,
  drop, length, length-append, length-take, take-append_of_length, drop-append_of_length, ◌∙◌, sym,
  ltb, Bool-cases, inl, inr, ◌≢◌,
}
use pennos.Fat.State.{DirEntry, dir_entry_size}
use pennos.Fat.Disk.{to_bytes, of_bytes, encode, decode, entry_at, set_entry_at}

-- The fields of an entry fit the layout on disk.
pub record Fits (e : DirEntry) : Type 0 where
  pub name : length e.name ≡ 32
  pub size : e.size < 2 ^ 32
  pub first_block : e.first_block < 2 ^ 16
  pub type : e.type < 2 ^ 8
  pub perm : e.perm < 2 ^ 8
  pub mtime : e.mtime < 2 ^ 64
  pub padding : length e.padding ≡ 16

length-to_bytes : (n v : ℕ) → length (to_bytes n v) ≡ n
unfolding to_bytes
length-to_bytes zero v = refl
length-to_bytes (suc n) v = ap suc (length-to_bytes n (v / 256))

of_bytes-to_bytes1 : (v : ℕ) → v < 2 ^ 8 → of_bytes (to_bytes 1 v) ≡ v
unfolding to_bytes of_bytes
of_bytes-to_bytes1 v h = omega arith

of_bytes-to_bytes2 : (v : ℕ) → v < 2 ^ 16 → of_bytes (to_bytes 2 v) ≡ v
unfolding to_bytes of_bytes
of_bytes-to_bytes2 v h = omega arith

of_bytes-to_bytes4 : (v : ℕ) → v < 2 ^ 32 → of_bytes (to_bytes 4 v) ≡ v
unfolding to_bytes of_bytes
of_bytes-to_bytes4 v h = omega arith

of_bytes-to_bytes8 : (v : ℕ) → v < 2 ^ 64 → of_bytes (to_bytes 8 v) ≡ v
unfolding to_bytes of_bytes
of_bytes-to_bytes8 v h = omega arith

-- Two parts of a concatenation at the length of the first.
take_prefix : (n : ℕ) (v : ℕ) (rest : List ℕ) → take n (to_bytes n v ++ rest) ≡ to_bytes n v
take_prefix n v rest = take-append_of_length n (to_bytes n v) rest (length-to_bytes n v)

drop_prefix : (n : ℕ) (v : ℕ) (rest : List ℕ) → drop n (to_bytes n v ++ rest) ≡ rest
drop_prefix n v rest = drop-append_of_length n (to_bytes n v) rest (length-to_bytes n v)

-- Reading back what was written: an entry whose fields fit the layout is decoded as it was encoded.
decode-encode : (e : DirEntry) → Fits e → decode (encode e) ≡ e
unfolding decode encode
decode-encode e f =
    let tail =
      to_bytes 4 e.size
      ++ (to_bytes 2 e.first_block
          ++ (to_bytes 1 e.type ++ (to_bytes 1 e.perm ++ (to_bytes 8 e.mtime ++ e.padding)))) in
    rw (drop-append_of_length 32 e.name tail f.name, take-append_of_length 32 e.name tail f.name)
      (simp (
        take_prefix,
        drop_prefix,
        of_bytes-to_bytes1 e.type f.type,
        of_bytes-to_bytes1 e.perm f.perm,
        of_bytes-to_bytes2 e.first_block f.first_block,
        of_bytes-to_bytes4 e.size f.size,
        of_bytes-to_bytes8 e.mtime f.mtime,
      ))

pub length-encode : (e : DirEntry) → Fits e → length (encode e) ≡ 64
unfolding encode
length-encode e f = simp (length-append, length-to_bytes, f.name, f.padding)

module _ {ℓ} {A : Type ℓ} where
  take-drop-append :
      (n a : ℕ) (xs ys : List A)
      → a + n ≤ length xs
      → take n (drop a (xs ++ ys)) ≡ take n (drop a xs)
  take-drop-append zero a xs ys h = refl
  take-drop-append (suc n) zero [] ys h = absurd (omega arith)
  take-drop-append (suc n) zero (x ∷ xs) ys h =
      ap (◌∷◌ x) (take-drop-append n zero xs ys (omega arith))
  take-drop-append (suc n) (suc a) [] ys h = absurd (omega arith)
  take-drop-append (suc n) (suc a) (x ∷ xs) ys h = take-drop-append (suc n) a xs ys (omega arith)

  take-drop-take :
      (n a m : ℕ) (xs : List A) → a + n ≤ m → take n (drop a (take m xs)) ≡ take n (drop a xs)
  take-drop-take zero a m xs h = refl
  take-drop-take (suc n) a zero xs h = absurd (omega arith)
  take-drop-take (suc n) zero (suc m) [] h = refl
  take-drop-take (suc n) zero (suc m) (x ∷ xs) h =
      ap (◌∷◌ x) (take-drop-take n zero m xs (omega arith))
  take-drop-take (suc n) (suc a) (suc m) [] h = refl
  take-drop-take (suc n) (suc a) (suc m) (x ∷ xs) h = take-drop-take (suc n) a m xs (omega arith)

  drop-drop : (a b c : ℕ) (xs : List A) → a + b ≡ c → drop b (drop a xs) ≡ drop c xs
  drop-drop zero b c xs h = rw (← h) (ap (λ n. drop n xs) (omega arith))
  drop-drop (suc a) zero zero xs h = absurd (omega arith)
  drop-drop (suc a) (suc b) zero xs h = absurd (omega arith)
  drop-drop (suc a) zero (suc c) [] h = refl
  drop-drop (suc a) (suc b) (suc c) [] h = refl
  drop-drop (suc a) zero (suc c) (x ∷ xs) h = drop-drop a zero c xs (omega arith)
  drop-drop (suc a) (suc b) (suc c) (x ∷ xs) h = drop-drop a (suc b) c xs (omega arith)

-- An array of entries: a write at one place is read back there.
pub entry_at-set_entry_at_self :
    (buf : List ℕ) (i : ℕ) (e : DirEntry)
    → Fits e
    → dir_entry_size * i ≤ length buf
    → entry_at (set_entry_at buf i e) i ≡ e
unfolding entry_at set_entry_at
entry_at-set_entry_at_self buf i e f h =
    let front = take (64 * i) buf in
    let long : length front ≡ 64 * i = omega (arith, length-take (64 * i) buf) in
    rw
      (
        drop-append_of_length (64 * i) front _ long,
        take-append_of_length 64 (encode e) _ (length-encode e f),
      )
      (decode-encode e f)

-- And every other entry is read as before.
pub entry_at-set_entry_at_ne :
    (buf : List ℕ) (i j : ℕ) (e : DirEntry)
    → Fits e
    → dir_entry_size * i ≤ length buf
    → i ≢ j
    → entry_at (set_entry_at buf i e) j ≡ entry_at buf j
unfolding entry_at set_entry_at
entry_at-set_entry_at_ne buf i j e f h ne = elim (Bool-cases (ltb j i)) [
  | inl lt ↦ ap decode (
      take-drop-append 64 (64 * j) (take (64 * i) buf) _
        (let lt_ji : j < i = ground arith in omega (arith, length-take (64 * i) buf))
      ∙ take-drop-take 64 (64 * j) (64 * i) buf (let lt_ji : j < i = ground arith in omega arith))
  | inr ge ↦
      let gt : i < j = ground arith in
      let front = take (64 * i) buf in
      let back = drop 64 (drop (64 * i) buf) in
      let long : length front ≡ 64 * i = omega (arith, length-take (64 * i) buf) in
      ap (λ l. decode (take 64 l))
        (sym
            (drop-drop (64 * i) (64 * (j - i)) (64 * j) (front ++ (encode e ++ back)) (omega arith))
          ∙ ap (drop (64 * (j - i))) (drop-append_of_length (64 * i) front (encode e ++ back) long)
          ∙ sym (drop-drop 64 (64 * (j - i - 1)) (64 * (j - i)) (encode e ++ back) (omega arith))
          ∙ ap (drop (64 * (j - i - 1)))
              (drop-append_of_length 64 (encode e) back (length-encode e f))
          ∙ drop-drop 64 (64 * (j - i - 1)) (64 * (j - i)) (drop (64 * i) buf) (omega arith)
          ∙ drop-drop (64 * i) (64 * (j - i)) (64 * j) buf (omega arith))
]
