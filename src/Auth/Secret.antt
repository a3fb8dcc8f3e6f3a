-- ===== src/Auth/Secret.antt =====
-- The shared secret (stormpulse/auth.py, `load_hmac_secret`).
use storm_pulse.Base.{
  leb, if◌then◌else◌, Bool-cases, ◌==◌, string_eq, pair_eq, nat_eq, length, All, elem, ℕ, ◌≡◌, refl,
  sym, ap, ◌∙◌, ◌≢◌, ◌⊎◌, inl, inr, Bool, true, false, ◌&&◌, ◌||◌, Option, none, some, List, [],
  ◌∷◌, ◌++◌, arith,
}
use mathlib.Core.Path.{subst}
use storm_pulse.Auth.{AuthReason, secret_missing, secret_empty}

-- `load_hmac_secret` over the file's bytes: `none` is a missing file. RAW_KEY_LEN is 32.
abbrev pub raw_key_len : ℕ
raw_key_len = 32

-- the bytes that `bytes.strip` takes off: space, \t, \n, \r, \v, \f
abbrev pub is_space : ℕ → Bool
is_space c = c == 32 || (leb 9 c && leb c 13)

unfoldable pub strip_left : List ℕ → List ℕ
strip_left [] = []
strip_left (c ∷ cs) = if is_space c then strip_left cs else c ∷ cs

unfoldable pub strip_right : List ℕ → List ℕ
strip_right [] = []
strip_right (c ∷ cs) =
    let rest = strip_right cs in if is_space c && length rest == 0 then [] else c ∷ rest

pub data Secret : Type 0 where
  loaded : List ℕ → Secret
  secret_error : AuthReason → Secret

abbrev pub nonempty : List ℕ → Secret
nonempty [] = secret_error secret_empty
nonempty (c ∷ cs) = loaded (c ∷ cs)

unfoldable pub load_hmac_secret : Option (List ℕ) → Secret
load_hmac_secret none = secret_error secret_missing
load_hmac_secret (some raw) =
    nonempty (if length raw == raw_key_len then raw else strip_right (strip_left raw))

-- ASCII whitespace: tab, line feed, vertical tab, form feed, carriage return and space
abbrev pub whitespace : List ℕ
whitespace = 9 ∷ 10 ∷ 11 ∷ 12 ∷ 13 ∷ 32 ∷ []

is_space-elem : (c : ℕ) → is_space c ≡ elem c whitespace
is_space-elem c = ground arith

abbrev pub AllSpace : List ℕ → Type 0
AllSpace cs = All (λ c. elem c whitespace ≡ true) cs

abbrev pub starts_blank : List ℕ → Bool
starts_blank [] = false
starts_blank (c ∷ cs) = elem c whitespace

abbrev pub ends_blank : List ℕ → Bool
ends_blank [] = false
ends_blank (c ∷ []) = elem c whitespace
ends_blank (c ∷ cs) = ends_blank cs

-- No whitespace is left at either end.
abbrev pub IsTrimmed : List ℕ → Type 0
IsTrimmed cs = (starts_blank cs ≡ false) × (ends_blank cs ≡ false)

strip_left-split : (cs : List ℕ) → (pre : List ℕ) × (cs ≡ pre ++ strip_left cs) × AllSpace pre
unfolding strip_left
strip_left-split [] = ([], refl, tt)
strip_left-split (c ∷ cs) = elim (Bool-cases (is_space c)) [
  | inl e ↦
      let (pre, same, blank) = strip_left-split cs in
      (c ∷ pre, rw e (ap (◌∷◌ c) same), (sym (is_space-elem c) ∙ e, blank))
  | inr e ↦ ([], rw e refl, tt)
]

strip_right-split : (cs : List ℕ) → (post : List ℕ) × (cs ≡ strip_right cs ++ post) × AllSpace post
unfolding strip_right
strip_right-split [] = ([], refl, tt)
strip_right-split (c ∷ cs) =
    let (post, same, blank) = strip_right-split cs in
    elim (Bool-cases (is_space c && length (strip_right cs) == 0)) [
      | inl e ↦
          let none_left = empty-nil (strip_right cs) (ground (arith, e)) in
          (
            c ∷ cs,
            rw e refl,
            (
              sym (is_space-elem c) ∙ ground (arith, e),
              subst AllSpace (sym (same ∙ ap (λ k. k ++ post) none_left)) blank,
            ),
          )
      | inr e ↦ (post, rw e (ap (◌∷◌ c) same), blank)
    ]
  where
    empty-nil : (k : List ℕ) → length k ≡ 0 → k ≡ []
    empty-nil [] h = refl
    empty-nil (x ∷ k) h = absurd (ground arith)

strip_left-starts : (cs : List ℕ) → starts_blank (strip_left cs) ≡ false
unfolding strip_left
strip_left-starts [] = refl
strip_left-starts (c ∷ cs) = elim (Bool-cases (is_space c)) [
  | inl e ↦ rw e (strip_left-starts cs)
  | inr e ↦ rw e (sym (is_space-elem c) ∙ e)
]

strip_right-starts : (cs : List ℕ) → starts_blank cs ≡ false → starts_blank (strip_right cs) ≡ false
unfolding strip_right
strip_right-starts [] h = refl
strip_right-starts (c ∷ cs) h = elim (Bool-cases (is_space c && length (strip_right cs) == 0)) [
  | inl e ↦ rw e refl
  | inr e ↦ rw e h
]

ends-cons :
    (c : ℕ) (cs : List ℕ)
    → (is_space c && length cs == 0) ≡ false
    → ends_blank cs ≡ false
    → ends_blank (c ∷ cs) ≡ false
ends-cons c [] e h = sym (is_space-elem c) ∙ ground (arith, e)
ends-cons c (d ∷ cs) e h = h

strip_right-ends : (cs : List ℕ) → ends_blank (strip_right cs) ≡ false
unfolding strip_right
strip_right-ends [] = refl
strip_right-ends (c ∷ cs) = elim (Bool-cases (is_space c && length (strip_right cs) == 0)) [
  | inl e ↦ rw e refl
  | inr e ↦ rw e (ends-cons c (strip_right cs) e (strip_right-ends cs))
]

-- The key within the file: the file's bytes as they are where it has 32, and else what is left of them
-- with no whitespace at its ends.
pub record IsKeyOf (raw key : List ℕ) : Type 0 where
  pub before : List ℕ
  pub after : List ℕ
  pub split : raw ≡ before ++ (key ++ after)
  pub blank : AllSpace before × AllSpace after
  pub whole : ((length raw ≢ 32) × IsTrimmed key) ⊎ ((length raw ≡ 32) × (key ≡ raw))
  pub some_bytes : key ≢ []

key_of : List ℕ → Secret → List ℕ
key_of d (loaded key) = key
key_of d (secret_error reason) = d

nonempty-loaded : (cs key : List ℕ) → nonempty cs ≡ loaded key → (cs ≡ key) × (key ≢ [])
unfolding key_of
nonempty-loaded [] key h = absurd (cc)
nonempty-loaded (c ∷ cs) key h =
    let same : c ∷ cs ≡ key = ap (key_of []) h in (same, λ e. absurd (cc (same, e)))

append_nil : (cs : List ℕ) → cs ≡ cs ++ []
append_nil [] = refl
append_nil (c ∷ cs) = ap (◌∷◌ c) (append_nil cs)

-- What is loaded is a key of at least one byte: a file of exactly 32 bytes as it is, whatever its
-- bytes, and of any other file what is between the ASCII whitespace at its ends: all of that is gone,
-- and nothing else.
pub load_hmac_secret-IsKeyOf :
    (raw key : List ℕ) → load_hmac_secret (some raw) ≡ loaded key → IsKeyOf raw key
unfolding load_hmac_secret
load_hmac_secret-IsKeyOf raw key h = elim (Bool-cases (length raw == raw_key_len)) [
  | inl e ↦
      let (same, some_bytes) = nonempty-loaded raw key (rw e at h) in
      record {
        before = [];
        after = [];
        split = same ∙ append_nil key;
        blank = (tt, tt);
        whole = inr (ground (arith, e), sym same);
        some_bytes = some_bytes;
      }
  | inr e ↦
      let (same, some_bytes) = nonempty-loaded (strip_right (strip_left raw)) key (rw e at h) in
      let (before, left, blank) = strip_left-split raw in
      let (after, right, blank') = strip_right-split (strip_left raw) in
      record {
        before = before;
        after = after;
        split = left ∙ ap (λ k. before ++ k) (right ∙ ap (λ k. k ++ after) same);
        blank = (blank, blank');
        whole = inl (
          λ k. ground (arith, e, k),
          subst IsTrimmed same (
            strip_right-starts (strip_left raw) (strip_left-starts raw),
            strip_right-ends (strip_left raw),
          ),
        );
        some_bytes = some_bytes;
      }
]
