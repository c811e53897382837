-- ===== src/Processor/Json.antt =====
-- JSON values of Python's json module, and json.dumps(value, indent=2, sort_keys=True,
-- ensure_ascii=False) with the encoding of its text, which `serialize_manifest`
-- (components/processor-worker/apps/edge_agent/finalize.py) and `serialize_report`
-- (components/processor-worker/packages/processing/fingerprint.py) use.
use edge_evidence_showcase.Prelude.{
  ℕ, zero, suc, ◌+◌, ◌-◌, ◌/◌, ◌%◌, Bool, true, false, ◌&&◌, Option, none, some, List, [], ◌∷◌,
  ◌++◌, Text, text, text_eq, text_compare, Ordering, ltb, all, any, ◌==◌, if◌then◌else◌,
}
use edge_evidence_showcase.Prelude.Sorting.{sorted}

-- `negative n` is -(n + 1); `fraction` is a number with a point or an exponent, as it is written.
mutual
  pub data Json : Type 0 where
    null : Json
    boolean : Bool → Json
    integer negative : ℕ → Json
    fraction string : Text → Json
    array : Items → Json
    object : Fields → Json

  pub data Items : Type 0 where
    no_items : Items
    item : Json → Items → Items

  pub data Fields : Type 0 where
    no_fields : Fields
    field : Text → Json → Fields → Fields

-- mapping.get(key)
unfoldable pub find_field : Text → Fields → Option Json
find_field key no_fields = none
find_field key (field k v fs) = if text_eq k key then some v else find_field key fs

unfoldable pub keys : Fields → List Text
keys no_fields = []
keys (field k v fs) = k ∷ keys fs

unfoldable pub has_text : Text → List Text → Bool
has_text t ts = any (λ u. text_eq u t) ts

-- set(mapping) - allowed is empty
unfoldable pub no_unknown : List Text → Fields → Bool
unfolding keys has_text
no_unknown allowed fs = all (λ k. has_text k allowed) (keys fs)

-- every name is a key of the mapping
unfoldable pub has_fields : List Text → Fields → Bool
unfolding keys has_text
has_fields names fs = all (λ n. has_text n (keys fs)) names

-- set(mapping) == names
unfoldable pub has_exactly : List Text → Fields → Bool
unfolding no_unknown has_fields
has_exactly names fs = no_unknown names fs && has_fields names fs

-- The digits of a number, on fuel: one more than the number is enough.
unfoldable pub digits : ℕ → ℕ → Text
digits zero n = []
digits (suc fuel) n =
    let rest = digits fuel (n / 10) in
    if ltb n 10 then (b'0' + n) ∷ [] else rest ++ (b'0' + n % 10) ∷ []

unfoldable pub decimal : ℕ → Text
unfolding digits
decimal n = digits (suc n) n

hex_digit : ℕ → ℕ
hex_digit n = if ltb n 10 then b'0' + n else b'a' + (n - 10)

-- The escape of one character; 92 is the backslash and 34 the quotation mark.
unfoldable pub escape : ℕ → Text
unfolding hex_digit
escape c =
    if c == 34
    then 92 ∷ 34 ∷ []
    else if c == 92
    then 92 ∷ 92 ∷ []
    else if c == 10
    then 92 ∷ b'n' ∷ []
    else if c == 13
    then 92 ∷ b'r' ∷ []
    else if c == 9
    then 92 ∷ b't' ∷ []
    else if c == 12
    then 92 ∷ b'f' ∷ []
    else if c == 8
    then 92 ∷ b'b' ∷ []
    else if ltb c 32
    then 92 ∷ b'u' ∷ b'0' ∷ b'0' ∷ hex_digit (c / 16) ∷ hex_digit (c % 16) ∷ []
    else c ∷ []

unfoldable pub escaped : Text → Text
unfolding escape
escaped [] = []
escaped (c ∷ s) = escape c ++ escaped s

unfoldable pub quoted : Text → Text
unfolding escaped
quoted s = 34 ∷ escaped s ++ 34 ∷ []

unfoldable pub spaces : ℕ → Text
spaces zero = []
spaces (suc n) = b' ' ∷ b' ' ∷ spaces n

-- One line for each entry, at a depth.
unfoldable pub lines : ℕ → List Text → Text
unfolding spaces
lines depth [] = []
lines depth (t ∷ []) = 10 ∷ spaces depth ++ t
lines depth (t ∷ u ∷ ts) = (10 ∷ spaces depth ++ t) ++ b',' ∷ lines depth (u ∷ ts)

unfoldable pub enclosed : ℕ → ℕ → ℕ → List Text → Text
unfolding lines
enclosed open_mark close_mark depth [] = open_mark ∷ close_mark ∷ []
enclosed open_mark close_mark depth (t ∷ ts) =
    open_mark ∷ lines (suc depth) (t ∷ ts) ++ 10 ∷ spaces depth ++ close_mark ∷ []

unfoldable pub key_compare : Text × Text → Text × Text → Ordering
key_compare a b = text_compare a.0 b.0

unfoldable pub entry_text : Text × Text → Text
unfolding quoted
entry_text e = quoted e.0 ++ b':' ∷ b' ' ∷ e.1

unfoldable pub entry_texts : List (Text × Text) → List Text
unfolding entry_text
entry_texts [] = []
entry_texts (e ∷ es) = entry_text e ∷ entry_texts es

unfoldable mutual
  pub dumps_at : ℕ → Json → Text
  dumps_at depth null = text "null"
  dumps_at depth (boolean true) = text "true"
  dumps_at depth (boolean false) = text "false"
  dumps_at depth (integer n) = decimal n
  dumps_at depth (negative n) = b'-' ∷ decimal (suc n)
  dumps_at depth (fraction t) = t
  dumps_at depth (string t) = quoted t
  dumps_at depth (array vs) = enclosed b'[' b']' depth (dumps_items (suc depth) vs)
  dumps_at depth (object fs) =
      enclosed b'{' b'}' depth (entry_texts (sorted key_compare (dumps_fields (suc depth) fs)))

  pub dumps_items : ℕ → Items → List Text
  dumps_items depth no_items = []
  dumps_items depth (item v vs) = dumps_at depth v ∷ dumps_items depth vs

  pub dumps_fields : ℕ → Fields → List (Text × Text)
  dumps_fields depth no_fields = []
  dumps_fields depth (field k v fs) = (k, dumps_at depth v) ∷ dumps_fields depth fs

-- The bytes of one code point in UTF-8.
unfoldable pub utf8 : ℕ → List ℕ
utf8 c =
    if ltb c 128
    then c ∷ []
    else if ltb c 2048
    then (192 + c / 64) ∷ (128 + c % 64) ∷ []
    else if ltb c 65536
    then (224 + c / 4096) ∷ (128 + c / 64 % 64) ∷ (128 + c % 64) ∷ []
    else (240 + c / 262144) ∷ (128 + c / 4096 % 64) ∷ (128 + c / 64 % 64) ∷ (128 + c % 64) ∷ []

-- str.encode("utf-8")
unfoldable pub encode : Text → List ℕ
unfolding utf8
encode [] = []
encode (c ∷ s) = utf8 c ++ encode s

-- (json.dumps(value, …) + "\n").encode("utf-8")
unfoldable pub serialize : Json → List ℕ
unfolding dumps_at encode
serialize value = encode (dumps_at 0 value ++ 10 ∷ [])
