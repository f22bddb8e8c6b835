-- ===== src/Tests/Codec.antt =====
-- A codec that meets the laws asked of the argument codec: a number is its eight bytes, the lowest
-- first, a truth value is one entry, a text is its number of characters followed by their codes, and
-- a list is its number of texts followed by them.
use Prim.Native.Nat.{Ordering, compare, ◌/◌}
use Prim.Native.Char.{Char, char, code, IsScalar, IsLt}
use Prim.Native.String.{[] as empty_text, ◌∷◌ as ◌▸◌}
use text.Mathlib.TextEquality.{Char-path}
use mathlib.Core.List.{append_assoc}
use community_storage.Base.{
  ℕ, zero, suc, ◌+◌, ◌*◌, ◌%◌, ◌^◌, IsU64, length-append, ◌≡◌, refl, sym, ap, ◌∙◌, String, Bool,
  true, false, Option, none, some, List, [], ◌∷◌, ◌++◌, length, drop, arith,
}
use community_storage.Structs.{StorageConfig, new_node, new_config}
use community_storage.Structs.Args.{ArgsCodec, at_offset, failed, read}
use community_storage.Structs.Serialize.{serialize_node, deserialize_node, deserialize_config}
use community_storage.Structs.RoundTrip.Node.{node_round_trip}
use community_storage.Tests.{north}

-- The clauses are those of `IsScalar`, which is three comparisons under helpers of its own.
abbrev Both : Ordering → Ordering → Type 0
Both Ordering.lt o = IsLt o
Both Ordering.eq _ = ⊥
Both Ordering.gt _ = ⊥

abbrev Scalar : Ordering → Ordering → Ordering → Type 0
Scalar Ordering.lt _ _ = Unit
Scalar Ordering.eq o p = Both o p
Scalar Ordering.gt o p = Both o p

abbrev decide_less : (o : Ordering) → Dec (IsLt o)
decide_less Ordering.lt = yes tt
decide_less Ordering.eq = no (λ x. x)
decide_less Ordering.gt = no (λ x. x)

abbrev decide_both : (o p : Ordering) → Dec (Both o p)
decide_both Ordering.lt p = decide_less p
decide_both Ordering.eq _ = no (λ x. x)
decide_both Ordering.gt _ = no (λ x. x)

abbrev decide_scalar : (o p q : Ordering) → Dec (Scalar o p q)
decide_scalar Ordering.lt _ _ = yes tt
decide_scalar Ordering.eq p q = decide_both p q
decide_scalar Ordering.gt p q = decide_both p q

abbrev is_scalar : (n : ℕ) → Dec (IsScalar n)
is_scalar n = decide_scalar (compare n 55296) (compare 57343 n) (compare n 1114112)

abbrev char_if : (n : ℕ) → Dec (IsScalar n) → Option Char
char_if n (yes p) = some (char n p)
char_if n (no _) = none

char_if-Scalar : (n : ℕ) (p : IsScalar n) (d : Dec (IsScalar n)) → char_if n d ≡ some (char n p)
char_if-Scalar n p (yes q) = ap some (Char-path (char n q) (char n p) refl)
char_if-Scalar n p (no q) = elim (q p) [ ]

unfoldable pub char? : ℕ → Option Char
char? n = char_if n (is_scalar n)

char?-code : (c : Char) → char? (code c) ≡ some c
unfolding char?
char?-code (char n p) = char_if-Scalar n p (is_scalar n)

abbrev codes : String → List ℕ
codes empty_text = []
codes (c ▸ s) = code c ∷ codes s

abbrev in_front : Option Char → Option String → Option String
in_front none t = none
in_front (some c) none = none
in_front (some c) (some s) = some (c ▸ s)

unfoldable pub read_text : ℕ → List ℕ → Option String
read_text zero xs = some empty_text
read_text (suc k) [] = none
read_text (suc k) (n ∷ xs) = in_front (char? n) (read_text k xs)

read_text-codes : (s : String) (c : List ℕ) → read_text (length (codes s)) (codes s ++ c) ≡ some s
unfolding read_text
read_text-codes empty_text c = refl
read_text-codes (x ▸ s) c = λ i. in_front (char?-code x i) (read_text-codes s c i)

drop-length : (b c : List ℕ) → drop (length b) (b ++ c) ≡ c
drop-length [] c = refl
drop-length (x ∷ b) c = drop-length b c

pub drop-behind : (b e c : List ℕ) → drop (length b) (b ++ e ++ c) ≡ e ++ c
drop-behind b e c = ap (drop (length b)) (append_assoc b e c) ∙ drop-length b (e ++ c)

abbrev byte : ℕ → ℕ → ℕ
byte n k = n / 256 ^ k % 256

abbrev bytes : ℕ → List ℕ
bytes n = byte n 0 ∷ byte n 1 ∷ byte n 2 ∷ byte n 3 ∷ byte n 4 ∷ byte n 5 ∷ byte n 6 ∷ byte n 7 ∷ []

abbrev number_at : List ℕ → ℕ → Option (ℕ × ℕ)
number_at (a ∷ b ∷ c ∷ d ∷ e ∷ f ∷ g ∷ h ∷ xs) i = some (
  a + 256 * b + 256 ^ 2 * c + 256 ^ 3 * d + 256 ^ 4 * e + 256 ^ 5 * f + 256 ^ 6 * g + 256 ^ 7 * h,
  i + 8,
)
number_at _ i = none

pub number_at-bytes :
    (n : ℕ) (c : List ℕ) (i : ℕ) → IsU64 n → number_at (bytes n ++ c) i ≡ some (n, i + 8)
number_at-bytes n c i h = ap (λ (v : ℕ). some (v, i + 8)) (omega arith)

abbrev truth : Bool → ℕ
truth false = 0
truth true = 1

abbrev truth_at : List ℕ → ℕ → Option (Bool × ℕ)
truth_at [] i = none
truth_at (zero ∷ xs) i = some (false, i + 1)
truth_at (suc n ∷ xs) i = some (true, i + 1)

pub truth_at-truth : (v : Bool) (c : List ℕ) (i : ℕ) → truth_at (truth v ∷ c) i ≡ some (v, i + 1)
truth_at-truth false c i = refl
truth_at-truth true c i = refl

abbrev moved : ℕ → Option String → Option (String × ℕ)
moved j none = none
moved j (some s) = some (s, j)

abbrev text_at : List ℕ → ℕ → Option (String × ℕ)
text_at [] i = none
text_at (n ∷ xs) i = moved (i + suc n) (read_text n xs)

pub text_at-codes :
    (s : String) (c : List ℕ) (i : ℕ)
    → text_at (length (codes s) ∷ codes s ++ c) i ≡ some (s, i + suc (length (codes s)))
text_at-codes s c i = ap (moved (i + suc (length (codes s)))) (read_text-codes s c)

abbrev joined : Option String → Option (List String × ℕ) → Option (List String × ℕ)
joined none ss = none
joined (some s) none = none
joined (some s) (some (ss, n)) = some (s ∷ ss, suc (length (codes s) + n))

abbrev texts : List String → List ℕ
texts [] = []
texts (s ∷ ss) = length (codes s) ∷ codes s ++ texts ss

-- The list and its length in entries.
unfoldable pub read_texts : ℕ → List ℕ → Option (List String × ℕ)
read_texts zero xs = some ([], 0)
read_texts (suc k) [] = none
read_texts (suc k) (n ∷ xs) = joined (read_text n xs) (read_texts k (drop n xs))

pub read_texts-texts :
    (ss : List String) (c : List ℕ)
    → read_texts (length ss) (texts ss ++ c) ≡ some (ss, length (texts ss))
unfolding read_texts
read_texts-texts [] c = refl
read_texts-texts (s ∷ ss) c =
    let rest = texts ss ++ c in
    let split = append_assoc (codes s) (texts ss) c in
    let here = ap (read_text (length (codes s))) split ∙ read_text-codes s rest in
    let tail_ = ap (drop (length (codes s))) split ∙ drop-length (codes s) rest in
    let later = ap (read_texts (length ss)) tail_ ∙ read_texts-texts ss c in
    (λ i. joined (here i) (later i))
    ∙ ap (λ n. some (s ∷ ss, suc n)) (sym (length-append (codes s) (texts ss)))

abbrev shifted : ℕ → Option (List String × ℕ) → Option (List String × ℕ)
shifted j none = none
shifted j (some (ss, n)) = some (ss, j + suc n)

abbrev texts_at : List ℕ → ℕ → Option (List String × ℕ)
texts_at [] i = none
texts_at (n ∷ xs) i = shifted i (read_texts n xs)

abbrev pub codec : ArgsCodec
codec = record {
  enc_string = λ s. length (codes s) ∷ codes s;
  enc_u64 = λ n. bytes n;
  enc_bool = λ v. truth v ∷ [];
  enc_strings = λ ss. length ss ∷ texts ss;
  add_string = λ b s. b ++ length (codes s) ∷ codes s;
  add_u64 = λ b n. b ++ bytes n;
  add_bool = λ b v. b ++ truth v ∷ [];
  add_strings = λ b ss. b ++ length ss ∷ texts ss;
  u64_to_bytes = λ n. bytes n;
  next_string = λ b i. text_at (drop i b) i;
  next_u64 = λ b i. number_at (drop i b) i;
  next_bool = λ b i. truth_at (drop i b) i;
  next_strings = λ b i. texts_at (drop i b) i;
  add_string_lem = λ b s. refl;
  add_u64_lem = λ b n. refl;
  add_bool_lem = λ b v. refl;
  add_strings_lem = λ b ss. refl;
  u64_to_bytes_lem = λ n. refl;
  length-enc_u64 = λ n. refl;
  length-enc_string = λ s. omega arith;
  length-enc_strings = λ ss. omega arith;
  next_string_lem = λ b c s.
      ap (λ x. text_at x (length b)) (drop-behind b (length (codes s) ∷ codes s) c)
      ∙ text_at-codes s c (length b);
  next_u64_lem = λ b c n h.
      ap (λ x. number_at x (length b)) (drop-behind b (bytes n) c)
      ∙ number_at-bytes n c (length b) h;
  next_bool_lem = λ b c v.
      ap (λ x. truth_at x (length b)) (drop-behind b (truth v ∷ []) c)
      ∙ truth_at-truth v c (length b);
  next_strings_lem = λ b c ss.
      ap (λ x. texts_at x (length b)) (drop-behind b (length ss ∷ texts ss) c)
      ∙ ap (shifted (length b)) (read_texts-texts ss c);
}

abbrev one_node : List ℕ
one_node = serialize_node codec north

node_round_trip_example :
    deserialize_node codec (new_node "" 0 0) ((7 ∷ []) ++ (one_node ++ (9 ∷ []))) 1
    ≡ at_offset north (1 + length one_node)
node_round_trip_example = node_round_trip codec (new_node "" 0 0) north (7 ∷ []) (9 ∷ []) (record {
  allocated_gb_fits = omega arith;
  registered_period_fits = omega arith;
  total_challenges_fits = omega arith;
  passed_challenges_fits = omega arith;
  pending_rewards_fits = omega arith;
  last_challenged_period_fits = omega arith;
  last_rewarded_period_fits = omega arith;
})

abbrev some_config : StorageConfig
some_config = record new_config { reward_per_gb_per_period = 70 }

-- A reader that runs out of data says which field it missed, and keeps the fields before it.
short_config :
    deserialize_config codec some_config (bytes 1 ++ (bytes 2 ++ 9 ∷ [])) 0
    ≡ failed
        (record some_config { reward_per_gb_per_period = 1; min_allocated_gb = 2 })
        "maxAllocatedGb"
unfolding deserialize_config read
short_config = refl
