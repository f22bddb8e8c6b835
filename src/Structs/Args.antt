-- ===== src/Structs/Args.antt =====
-- The argument codec of @massalabs/as-types, through which the classes of
-- smartContract/assembly/structs are stored, as an interface; and the steps of a `deserialize`.
use community_storage.Base.{
  ℕ, ◌+◌, ◌<◌, ◌≡◌, refl, sym, ap, ◌∙◌, String, Bool, Option, none, some, List, ◌++◌, length,
  length-append, arith, IsU64,
}
use mathlib.Core.List.{append_assoc}

-- `add` appends the encoding of a value, and `next` reads one at an offset and moves behind it. The
-- laws are the documented behaviour: what was added is read back, wherever it stands; a number takes
-- eight bytes, a text and a list have a prefix, and `u64ToBytes` writes a number in the same way. The
-- class of the same name in @massalabs/massa-web3 has the same format.
pub record ArgsCodec : Type 0 where
  pub enc_string : String → List ℕ
  pub enc_u64 : ℕ → List ℕ
  pub enc_bool : Bool → List ℕ
  pub enc_strings : List String → List ℕ
  pub add_string : List ℕ → String → List ℕ
  pub add_u64 : List ℕ → ℕ → List ℕ
  pub add_bool : List ℕ → Bool → List ℕ
  pub add_strings : List ℕ → List String → List ℕ
  pub u64_to_bytes : ℕ → List ℕ
  pub next_string : List ℕ → ℕ → Option (String × ℕ)
  pub next_u64 : List ℕ → ℕ → Option (ℕ × ℕ)
  pub next_bool : List ℕ → ℕ → Option (Bool × ℕ)
  pub next_strings : List ℕ → ℕ → Option (List String × ℕ)
  pub add_string_lem : (b : List ℕ) (v : String) → add_string b v ≡ b ++ enc_string v
  pub add_u64_lem : (b : List ℕ) (v : ℕ) → add_u64 b v ≡ b ++ enc_u64 v
  pub add_bool_lem : (b : List ℕ) (v : Bool) → add_bool b v ≡ b ++ enc_bool v
  pub add_strings_lem : (b : List ℕ) (v : List String) → add_strings b v ≡ b ++ enc_strings v
  pub u64_to_bytes_lem : (v : ℕ) → u64_to_bytes v ≡ enc_u64 v
  pub length-enc_u64 : (v : ℕ) → length (enc_u64 v) ≡ 8
  pub length-enc_string : (v : String) → 0 < length (enc_string v)
  pub length-enc_strings : (v : List String) → 0 < length (enc_strings v)
  pub next_string_lem :
      (b c : List ℕ) (v : String)
      → next_string (b ++ enc_string v ++ c) (length b) ≡ some (v, length b + length (enc_string v))
  pub next_u64_lem :
      (b c : List ℕ) (v : ℕ)
      → IsU64 v
      → next_u64 (b ++ enc_u64 v ++ c) (length b) ≡ some (v, length b + length (enc_u64 v))
  pub next_bool_lem :
      (b c : List ℕ) (v : Bool)
      → next_bool (b ++ enc_bool v ++ c) (length b) ≡ some (v, length b + length (enc_bool v))
  pub next_strings_lem :
      (b c : List ℕ) (v : List String)
      → next_strings (b ++ enc_strings v ++ c) (length b)
        ≡ some (v, length b + length (enc_strings v))

-- `deserialize` in progress: the object so far with the offset of the reader, or the object with
-- the fields that were read before an `Err`, and the field that failed.
pub data Reading (T : Type 0) : Type 0 where
  at_offset : T → ℕ → Reading T
  failed : T → String → Reading T

-- The object, which `deserialize` has changed in place whether it failed or not.
abbrev pub object : {T : Type 0} → Reading T → T
object (at_offset t i) = t
object (failed t name) = t

infixl 5 ◌▷◌
abbrev pub ◌▷◌ : {A B : Type 0} → A → (A → B) → B
a ▷ f = f a

-- Reading one field: `const v = args.next…(); if (v.isErr()) return …; this.field = v.unwrap()`.
unfoldable pub read :
    {T V : Type 0} → (ℕ → Option (V × ℕ)) → String → (V → T → T) → Reading T → Reading T
read next name assign (at_offset t i) = elim (next i) [
  | none ↦ failed t name
  | some (v, j) ↦ at_offset (assign v t) j
]
read next name assign (failed t other) = failed t other

-- The reader stands before `rest`.
pub record Before (data_ : List ℕ) (i : ℕ) (rest : List ℕ) : Type 0 where
  pub passed : List ℕ
  pub split : data_ ≡ passed ++ rest
  pub offset : i ≡ length passed

pub Before-start : (b rest : List ℕ) → Before (b ++ rest) (length b) rest
Before-start b rest = record { passed = b; split = refl; offset = refl }

module _ {data_ : List ℕ} {i : ℕ} (e c : List ℕ) where
  pub Before-next : Before data_ i (e ++ c) → Before data_ (i + length e) c
  Before-next p = record {
    passed = p.passed ++ e;
    split = p.split ∙ sym (append_assoc p.passed e c);
    offset = omega (arith, p.offset, length-append {0} p.passed e);
  }

module _ (C : ArgsCodec) {data_ : List ℕ} {i : ℕ} (c : List ℕ) where
  pub next_string-Before :
      (v : String)
      → Before data_ i (C.enc_string v ++ c)
      → C.next_string data_ i ≡ some (v, i + length (C.enc_string v))
  next_string-Before v p =
      cc (
        p.split,
        p.offset,
        append_assoc p.passed (C.enc_string v) c,
        C.next_string_lem p.passed c v,
      )

  pub next_u64-Before :
      (v : ℕ)
      → IsU64 v
      → Before data_ i (C.enc_u64 v ++ c)
      → C.next_u64 data_ i ≡ some (v, i + length (C.enc_u64 v))
  next_u64-Before v h p =
      cc (p.split, p.offset, append_assoc p.passed (C.enc_u64 v) c, C.next_u64_lem p.passed c v h)

  next_bool-Before :
      (v : Bool)
      → Before data_ i (C.enc_bool v ++ c)
      → C.next_bool data_ i ≡ some (v, i + length (C.enc_bool v))
  next_bool-Before v p =
      cc (p.split, p.offset, append_assoc p.passed (C.enc_bool v) c, C.next_bool_lem p.passed c v)

  pub next_strings-Before :
      (v : List String)
      → Before data_ i (C.enc_strings v ++ c)
      → C.next_strings data_ i ≡ some (v, i + length (C.enc_strings v))
  next_strings-Before v p = cc (
    p.split,
    p.offset,
    append_assoc p.passed (C.enc_strings v) c,
    C.next_strings_lem p.passed c v,
  )

-- The fields read so far make `t`, and the reader stands before `rest`.
pub record Reads {T : Type 0} (r : Reading T) (data_ : List ℕ) (t : T) (rest : List ℕ)
    : Type 0 where
  pub index : ℕ
  pub result : r ≡ at_offset t index
  pub before : Before data_ index rest

pub Reads-start :
    {T : Type 0} (t : T) (b rest : List ℕ) → Reads (at_offset t (length b)) (b ++ rest) t rest
Reads-start t b rest = record { index = length b; result = refl; before = Before-start b rest }

module _ (C : ArgsCodec) {T : Type 0} {r : Reading T} {data_ : List ℕ} {t : T} (name : String)
    (c : List ℕ) where
  pub Reads-string :
      (v : String) (assign : String → T → T)
      → Reads r data_ t (C.enc_string v ++ c)
      → Reads (read (C.next_string data_) name assign r) data_ (assign v t) c
  unfolding read
  Reads-string v assign p = record {
    index = p.index + length (C.enc_string v);
    result = rw (p.result, read, next_string-Before C c v p.before);
    before = Before-next (C.enc_string v) c p.before;
  }

  pub Reads-u64 :
      (v : ℕ) (assign : ℕ → T → T)
      → IsU64 v
      → Reads r data_ t (C.enc_u64 v ++ c)
      → Reads (read (C.next_u64 data_) name assign r) data_ (assign v t) c
  unfolding read
  Reads-u64 v assign h p = record {
    index = p.index + length (C.enc_u64 v);
    result = rw (p.result, read, next_u64-Before C c v h p.before);
    before = Before-next (C.enc_u64 v) c p.before;
  }

  pub Reads-bool :
      (v : Bool) (assign : Bool → T → T)
      → Reads r data_ t (C.enc_bool v ++ c)
      → Reads (read (C.next_bool data_) name assign r) data_ (assign v t) c
  unfolding read
  Reads-bool v assign p = record {
    index = p.index + length (C.enc_bool v);
    result = rw (p.result, read, next_bool-Before C c v p.before);
    before = Before-next (C.enc_bool v) c p.before;
  }

  pub Reads-strings :
      (v : List String) (assign : List String → T → T)
      → Reads r data_ t (C.enc_strings v ++ c)
      → Reads (read (C.next_strings data_) name assign r) data_ (assign v t) c
  unfolding read
  Reads-strings v assign p = record {
    index = p.index + length (C.enc_strings v);
    result = rw (p.result, read, next_strings-Before C c v p.before);
    before = Before-next (C.enc_strings v) c p.before;
  }

-- A reader that has come to `rest` has passed all that stands before it.
pub Reads-end :
    {T : Type 0} {r : Reading T} {t : T} (b e rest : List ℕ)
    → Reads r (b ++ (e ++ rest)) t rest
    → r ≡ at_offset t (length b + length e)
Reads-end {t} b e rest p =
    let q = p.before in
    let sizes = ap length q.split in
    let passed : p.index ≡ length b + length e = omega (
      arith,
      q.offset,
      sizes,
      length-append {0} q.passed rest,
      length-append {0} b (e ++ rest),
      length-append {0} e rest,
    ) in
    p.result ∙ ap (at_offset t) passed
