-- ===== src/Data/Bytes.antt =====
-- Go strings: sequences of bytes, with `==`, `<` and the scans that the program makes.
use Prim.Native.Char.{code}
use native.Mathlib.Omega.{arith}
use zsh_pro.Prelude.{
  ℕ, String, ◌≡◌, refl, Bool, true, false, List, [], ◌∷◌, Eq, nat_eq, ltb, contains, if◌then◌else◌,
  ℕ_discrete,
}

abbrev pub Bytes : Type 0
Bytes = List ℕ

-- The bytes of an ASCII literal.
abbrev pub bytes : String → Bytes
bytes String.[] = []
bytes (String.◌∷◌ c s) = code c ∷ bytes s

unfoldable pub Bytes-discrete : Discrete Bytes
Bytes-discrete = hlevel ℕ_discrete

instance unfoldable pub bytes_eq : Eq Bytes
unfolding Bytes-discrete ℕ_discrete
bytes_eq = record { dec = Bytes-discrete }

-- `strings.IndexByte(s, 0) >= 0`
unfoldable pub has_nul : Bytes → Bool
unfolding contains ℕ_discrete
has_nul s = contains 0 s

-- `<` on strings: the first difference decides, and a proper prefix is smaller.
unfoldable pub bytes_lt : Bytes → Bytes → Bool
bytes_lt s [] = false
bytes_lt [] (d ∷ t) = true
bytes_lt (c ∷ s) (d ∷ t) =
    let rest = bytes_lt s t in if ltb c d then true else if ltb d c then false else rest

pub bytes_lt_irrefl : (s : Bytes) → bytes_lt s s ≡ false
unfolding bytes_lt
bytes_lt_irrefl [] = refl
bytes_lt_irrefl (c ∷ s) = ground (arith, bytes_lt_irrefl s)

pub bytes_lt_trans :
    (s t u : Bytes) → bytes_lt s t ≡ true → bytes_lt t u ≡ true → bytes_lt s u ≡ true
unfolding bytes_lt
bytes_lt_trans s t [] p q = q
bytes_lt_trans s [] (e ∷ u) p q = ground arith
bytes_lt_trans [] (d ∷ t) (e ∷ u) p q = refl
bytes_lt_trans (c ∷ s) (d ∷ t) (e ∷ u) p q = ground (arith, bytes_lt_trans s t u)

-- Two different strings are ordered one way or the other.
pub bytes_lt-total : (s t : Bytes) → bytes_lt s t ≡ false → bytes_lt t s ≡ false → s ≡ t
unfolding bytes_lt
bytes_lt-total [] [] p q = refl
bytes_lt-total (c ∷ s) [] p q = ground arith
bytes_lt-total [] (d ∷ t) p q = ground arith
bytes_lt-total (c ∷ s) (d ∷ t) p q = ground (arith, bytes_lt-total s t)
