-- ===== src/Idempotency/Laws.antt =====
-- internal/idempotency/store.go: the keys in Redis of two merchants are apart, and apart from those of
-- internal/webhook/dedup.go. The id of a merchant, which is a UUID, has no colon.
use zia.Base.{
  String, Bool, true, false, ◌&&◌, ◌<>◌, ◌≡◌, refl, sym, ap, ◌∙◌, inl, inr, Bool-cases, arith,
  str_eq, str_eq_iff, str_eq_ne,
}
use zia.Base.Chars.{text_take, text_drop, text_drop-append, text_length, has_char, joined-injective}
use Prim.Native.Char.{Char}
use Prim.Native.String.append
use zia.Idempotency.{redis_key}
use zia.Webhook.Processor.{dedup_redis_key}

abbrev colon : Char
colon = ":"

abbrev pub Plain : String → Type 0
Plain merchant_id = has_char b':' merchant_id ≡ false

unprefixed : (m k : String) → text_drop 12 (redis_key m k) ≡ m <> String.◌∷◌ colon k
unfolding text_length
unprefixed m k =
    text_drop-append "idempotency:" (m <> ":" <> k)
    ∙ ap (λ s. m <> s) (append.cons colon "" k ∙ ap (λ s. String.◌∷◌ colon s) (append.nil k))

redis_key-injective :
    (m n k l : String) → Plain m → Plain n → redis_key m k ≡ redis_key n l → (m ≡ n) × (k ≡ l)
redis_key-injective m n k l plain plain' same =
    joined-injective colon m n k l plain plain'
      (sym (unprefixed m k) ∙ ap (text_drop 12) same ∙ unprefixed n l)

not_both : true ≡ false → ⊥
not_both h = ground arith

and_false : (a b : Bool) → (a ≡ true → b ≡ true → ⊥) → (a && b) ≡ false
and_false true true h = elim (h refl refl) [ ]
and_false true false h = refl
and_false false b h = refl

-- Two pairs have one key exactly if they are one.
pub redis_key_same :
    (m n k l : String)
    → Plain m
    → Plain n
    → str_eq (redis_key m k) (redis_key n l) ≡ (str_eq m n && str_eq k l)
redis_key_same m n k l plain plain' = elim (Bool-cases (str_eq (redis_key m k) (redis_key n l))) [
  | inl same ↦
      let (ms, ks) =
        redis_key-injective m n k l plain plain'
          ((str_eq_iff (redis_key m k) (redis_key n l)).0 same) in
      let one : str_eq m n ≡ true = (str_eq_iff m n).1 ms in
      let two : str_eq k l ≡ true = (str_eq_iff k l).1 ks in same ∙ sym (rw (one, two) refl)
  | inr other ↦
      other
      ∙ sym (
          and_false (str_eq m n) (str_eq k l) λ one two.
            let together : redis_key m k ≡ redis_key n l =
              ap (λ x. redis_key x k) ((str_eq_iff m n).0 one)
              ∙ ap (redis_key n) ((str_eq_iff k l).0 two) in
            let yes : str_eq (redis_key m k) (redis_key n l) ≡ true =
              (str_eq_iff (redis_key m k) (redis_key n l)).1 together in
            not_both (sym yes ∙ other))
]

w_clash : ◌≡◌ {A = String} "w" "i" → ⊥
w_clash h = not_both (sym ((str_eq_iff "w" "i").1 h))

abbrev first : Char
first = "w"

abbrev other_first : Char
other_first = "i"

-- A key of the deduplicator is no key of the store.
pub dedup_apart : (key m k : String) → str_eq (dedup_redis_key key) (redis_key m k) ≡ false
unfolding text_take
dedup_apart key m k = str_eq_ne (dedup_redis_key key) (redis_key m k) λ same. w_clash (
    ap (text_take 1) (sym (append.cons first "ebhook_dedup:" key))
    ∙ ap (text_take 1) same
    ∙ ap (text_take 1) (append.cons other_first "dempotency:" (m <> ":" <> k)))
