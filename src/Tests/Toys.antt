-- ===== src/Tests/Toys.antt =====
-- Concrete stand-ins for the code outside the repository that the command line uses: a file format
-- for the users file that can be read back, and a hash.
use tabby_sync.Common.{
  ℕ, zero, suc, ◌==◌, ℤ, pos, negsuc, Bytes, Bool, true, false, Option, none, some, List, [], ◌∷◌,
  ◌++◌, length, take, drop, ◌≡◌, refl, sym, ◌∙◌, ap, arith, bytes_eq, bytes_eq_iff, ◌≢◌,
}
use tabby_sync.Auth.{User}
use tabby_sync.Cli.Users.{Yaml, RoundTrips}
use tabby_sync.Cli.Users.Tokens.{AreBytes, IsSha256}
use tabby_sync.Tests.{sample_key}

take-append : (s t : Bytes) → take (length s) (s ++ t) ≡ s
take-append [] t = refl
take-append (c ∷ s) t = ap (λ r. c ∷ r) (take-append s t)

drop-append : (s t : Bytes) → drop (length s) (s ++ t) ≡ t
drop-append [] t = refl
drop-append (c ∷ s) t = drop-append s t

-- A text behind its length.
abbrev framed : Bytes → Bytes → Bytes
framed s rest = length s ∷ (s ++ rest)

abbrev unframed : Bytes → Bytes × Bytes
unframed [] = ([], [])
unframed (n ∷ s) = (take n s, drop n s)

unframed-framed : (s rest : Bytes) → unframed (framed s rest) ≡ (s, rest)
unframed-framed s rest =
    ap (λ a. (a, drop (length s) (s ++ rest))) (take-append s rest)
    ∙ ap (λ b. (s, b)) (drop-append s rest)

abbrev number : ℤ → Bytes → Bytes
number (pos n) rest = 0 ∷ n ∷ rest
number (negsuc n) rest = 1 ∷ n ∷ rest

abbrev flag : Bool → ℕ
flag true = 1
flag false = 0

abbrev put_user : User → Bytes → Bytes
put_user u rest =
    number u.id (flag u.disabled ∷ framed u.name (framed u.token_prefix (framed u.token_hash rest)))

abbrev put_users : List User → Bytes
put_users [] = []
put_users (u ∷ us) = put_user u (put_users us)

abbrev id_of : ℕ → ℕ → ℤ
id_of zero n = pos n
id_of (suc s) n = negsuc n

abbrev user_of : ℤ → Bool → Bytes → Bytes → Bytes → User
user_of id disabled name prefix hash = record {
  id = id;
  name = name;
  token_prefix = prefix;
  token_hash = hash;
  disabled = disabled;
}

abbrev with_hash_text : (Bytes → User) → Bytes × Bytes → User × Bytes
with_hash_text u (hash, s) = (u hash, s)

abbrev with_prefix : (Bytes → Bytes → User) → Bytes × Bytes → User × Bytes
with_prefix u (prefix, s) = with_hash_text (u prefix) (unframed s)

abbrev with_name : (Bytes → Bytes → Bytes → User) → Bytes × Bytes → User × Bytes
with_name u (name, s) = with_prefix (u name) (unframed s)

abbrev fields : ℤ → ℕ → Bytes → User × Bytes
fields id d s = with_name (user_of id (d == 1)) (unframed s)

abbrev get_user : Bytes → User × Bytes
get_user (s ∷ n ∷ d ∷ rest) = fields (id_of s n) d rest
get_user s = fields (pos 0) 0 s

unfoldable pub get_users : ℕ → Bytes → List User
get_users zero s = []
get_users (suc n) s = let (u, rest) = get_user s in u ∷ get_users n rest

abbrev read_back : Bytes → Option (List User)
read_back [] = none
read_back (n ∷ s) = some (get_users n s)

abbrev pub toy_yaml : Yaml
toy_yaml = record { marshal = λ us. some (length us ∷ put_users us); unmarshal = read_back }

fields-framed :
    (u : User) (id : ℤ) (d : ℕ) (rest : Bytes)
    → id ≡ u.id
    → (d == 1) ≡ u.disabled
    → fields id d (framed u.name (framed u.token_prefix (framed u.token_hash rest))) ≡ (u, rest)
fields-framed u id d rest same_id same_flag =
    let tail = framed u.token_hash rest in
    let made = user_of id (d == 1) in
    ap (with_name made) (unframed-framed u.name (framed u.token_prefix tail))
    ∙ (ap (with_prefix (made u.name)) (unframed-framed u.token_prefix tail)
        ∙ (ap (with_hash_text (made u.name u.token_prefix)) (unframed-framed u.token_hash rest)
            ∙ (ap (λ i. (user_of i (d == 1) u.name u.token_prefix u.token_hash, rest)) same_id
                ∙ ap (λ b. (user_of u.id b u.name u.token_prefix u.token_hash, rest)) same_flag)))

get_numbered : (i : ℤ) (d : ℕ) (s : Bytes) → get_user (number i (d ∷ s)) ≡ fields i d s
get_numbered (pos n) d s = refl
get_numbered (negsuc n) d s = refl

flag-eq : (b : Bool) → (flag b == 1) ≡ b
flag-eq true = refl
flag-eq false = refl

get_user-put_user : (u : User) (rest : Bytes) → get_user (put_user u rest) ≡ (u, rest)
get_user-put_user u rest =
    let s = framed u.name (framed u.token_prefix (framed u.token_hash rest)) in
    get_numbered u.id (flag u.disabled) s
    ∙ fields-framed u u.id (flag u.disabled) rest refl (flag-eq u.disabled)

get_users-put_users : (us : List User) → get_users (length us) (put_users us) ≡ us
unfolding get_users
get_users-put_users [] = refl
get_users-put_users (u ∷ us) =
    ap (λ r. r.0 ∷ get_users (length us) r.1) (get_user-put_user u (put_users us))
    ∙ ap (λ vs. u ∷ vs) (get_users-put_users us)

pub toy_yaml-RoundTrips : RoundTrips toy_yaml
toy_yaml-RoundTrips us raw e =
    ap read_back (sym (some-injective (length us ∷ put_users us) raw e))
    ∙ ap some (get_users-put_users us)
  where
    some-injective : (a b : Bytes) → some a ≡ some b → a ≡ b
    some-injective a b e = cc

-- A hash that is the same 32 bytes for every text.
abbrev pub toy_sha256 : Bytes → Bytes
toy_sha256 s = sample_key

pub toy_sha256-IsSha256 : IsSha256 toy_sha256
toy_sha256-IsSha256 s = (bytes, refl)
  where
    bytes : AreBytes sample_key
    bytes = ground arith

-- Two texts that are computed to differ.
pub differ : (a b : Bytes) → bytes_eq a b ≡ false → a ≢ b
differ a b h e = absurd (ground (arith, h, (bytes_eq_iff a b).1 e))
