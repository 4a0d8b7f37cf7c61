-- ===== src/Files/Paths.antt =====
-- The functions of path/filepath that the commands use, on paths that filepath.Clean would leave as
-- they are.
use tabby_sync.Common.{
  ℕ, ◌≤◌, ◌+◌, suc, Bytes, is_empty, Bool, not, ◌&&◌, [], ◌∷◌, ◌++◌, length, ◌==◌, if◌then◌else◌,
  ◌≡◌, ◌≢◌, refl, arith, lit, length-append, ap, Bool-cases, inl, inr,
}

abbrev slash : ℕ
slash = b'/'

abbrev cut_at : ℕ → Bytes × Bytes → Bytes × Bytes
cut_at c (front, base) =
    if is_empty front && not (c == slash) then ([], c ∷ base) else (c ∷ front, base)

-- filepath.Split: what stands up to the last slash, and what stands behind it.
unfoldable pub split : Bytes → Bytes × Bytes
split [] = ([], [])
split (c ∷ s) = cut_at c (split s)

abbrev drop_last : ℕ → Bytes → Bytes
drop_last c [] = []
drop_last c (d ∷ s) = c ∷ drop_last d s

abbrev without_slash : Bytes → Bytes
without_slash [] = lit "."
without_slash (c ∷ []) = c ∷ []
without_slash (c ∷ d ∷ s) = c ∷ drop_last d s

-- filepath.Dir
unfoldable pub dir : Bytes → Bytes
unfolding split lit
dir path = without_slash (split path).0

-- filepath.Base, of a path that does not end in a slash.
unfoldable pub base : Bytes → Bytes
unfolding split
base path = (split path).1

abbrev ends_in_slash : ℕ → Bytes → Bool
ends_in_slash c [] = c == slash
ends_in_slash c (d ∷ s) = ends_in_slash d s

-- filepath.Join of a directory and a name; os.CreateTemp joins them the same way.
unfoldable pub join : Bytes → Bytes → Bytes
join [] name = name
join (c ∷ d) name = if ends_in_slash c d then (c ∷ d) ++ name else (c ∷ d) ++ slash ∷ name

split-append : (path : Bytes) → (split path).0 ++ (split path).1 ≡ path
unfolding split
split-append [] = refl
split-append (c ∷ s) = ground (arith, split-append s)

length-drop_last : (c : ℕ) (s : Bytes) → length s ≡ length (drop_last c s)
length-drop_last c [] = refl
length-drop_last c (d ∷ s) = omega (arith, length-drop_last d s)

length-without_slash : (front : Bytes) → length front ≤ length (without_slash front) + 1
unfolding lit
length-without_slash [] = omega arith
length-without_slash (c ∷ []) = omega arith
length-without_slash (c ∷ d ∷ s) = omega (arith, length-drop_last d s)

length-split : (path : Bytes) → length path ≡ length (split path).0 + length (split path).1
length-split path =
    omega (arith, length-append (split path).0 (split path).1, ap length (split-append path))

length-path : (path : Bytes) → length path ≤ length (dir path) + 1 + length (base path)
unfolding dir base
length-path path = omega (arith, length-split path, length-without_slash (split path).0)

length-join : (d name : Bytes) → length d + length name ≤ length (join d name)
unfolding join
length-join [] name = omega arith
length-join (c ∷ d) name = elim (Bool-cases (ends_in_slash c d)) [
  | inl slashed ↦ rw slashed (omega (arith, length-append d name))
  | inr bare ↦ rw bare (omega (arith, length-append d (slash ∷ name)))
]

-- A name in the directory of a path, longer by two than the path's own: another path.
pub join-ne :
    (path name : Bytes) → suc (suc (length (base path))) ≤ length name → join (dir path) name ≢ path
join-ne path name h e = omega (arith, length-path path, length-join (dir path) name, ap length e)
