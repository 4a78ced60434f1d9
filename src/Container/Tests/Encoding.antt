-- ===== src/Container/Tests/Encoding.antt =====
-- An encoding of the records of the registry, which the tests use in the place of msgpack.
use lpmx.Base.{
  ℕ, zero, suc, ◌≡◌, refl, Option, none, some, List, [], ◌∷◌, ◌++◌, length, take, drop, arith,
}
use lpmx.Base.Text.{Bytes}
use lpmx.Base.Dict.{Dict}
use lpmx.Container.Sys.{Scalar, text, other, Entry, fields, scalar, Sys, Codec}
use lpmx.Container.Images.{Image}

-- A value in front of a rest.
pub record Encoding (A : Type 0) : Type 0 where
  pub enc : A → Bytes → Bytes
  pub dec : Bytes → Option (A × Bytes)
  pub dec-enc : (a : A) (r : Bytes) → dec (enc a r) ≡ some (a, r)

abbrev pub and_then :
    {A B : Type 0} → Option (A × Bytes) → (A → Bytes → Option (B × Bytes)) → Option (B × Bytes)
and_then none f = none
and_then (some (a, r)) f = f a r

take_all : (s r : Bytes) → take (length s) (s ++ r) ≡ s
take_all [] r = refl
take_all (c ∷ s) r = ground (arith, take_all s r)

drop_all : (s r : Bytes) → drop (length s) (s ++ r) ≡ r
drop_all [] r = refl
drop_all (c ∷ s) r = drop_all s r

unfoldable pub dec_text : Bytes → Option (Bytes × Bytes)
dec_text [] = none
dec_text (n ∷ r) = some (take n r, drop n r)

pub dec_text-enc : (s r : Bytes) → dec_text (length s ∷ s ++ r) ≡ some (s, r)
unfolding dec_text
dec_text-enc s r = rw (take_all s r, drop_all s r) refl

abbrev pub text_encoding : Encoding Bytes
text_encoding = record { enc = λ s r. length s ∷ s ++ r; dec = dec_text; dec-enc = dec_text-enc }

module _ {A B : Type 0} (a : Encoding A) (b : Encoding B) where
  pub pair_law :
      (x : A × B) (r : Bytes)
      → and_then
          (a.dec (a.enc x.0 (b.enc x.1 r)))
          (λ y r'. and_then (b.dec r') (λ z r''. some ((y, z), r'')))
        ≡ some (x, r)
  pair_law x r = rw (a.dec-enc x.0 (b.enc x.1 r), b.dec-enc x.1 r) refl

  abbrev pub pair_encoding : Encoding (A × B)
  pair_encoding = record {
    enc = λ x r. a.enc x.0 (b.enc x.1 r);
    dec = λ r. and_then (a.dec r) (λ y r'. and_then (b.dec r') (λ z r''. some ((y, z), r'')));
    dec-enc = pair_law;
  }

module _ {A : Type 0} (a : Encoding A) where
  unfoldable pub enc_items : List A → Bytes → Bytes
  enc_items [] r = r
  enc_items (x ∷ xs) r = a.enc x (enc_items xs r)

  unfoldable pub dec_items : ℕ → Bytes → Option (List A × Bytes)
  dec_items zero r = some ([], r)
  dec_items (suc n) r =
      and_then (a.dec r) (λ x r'. and_then (dec_items n r') (λ xs r''. some (x ∷ xs, r'')))

  dec_items-enc : (xs : List A) (r : Bytes) → dec_items (length xs) (enc_items xs r) ≡ some (xs, r)
  unfolding enc_items dec_items
  dec_items-enc [] r = refl
  dec_items-enc (x ∷ xs) r = rw (a.dec-enc x (enc_items xs r), dec_items-enc xs r) refl

  unfoldable pub dec_list : Bytes → Option (List A × Bytes)
  unfolding dec_items
  dec_list [] = none
  dec_list (n ∷ r) = dec_items n r

  pub list_law : (xs : List A) (r : Bytes) → dec_list (length xs ∷ enc_items xs r) ≡ some (xs, r)
  unfolding dec_list
  list_law xs r = dec_items-enc xs r

  abbrev pub list_encoding : Encoding (List A)
  list_encoding = record {
    enc = λ xs r. length xs ∷ enc_items xs r;
    dec = dec_list;
    dec-enc = list_law;
  }

unfoldable pub enc_scalar : Scalar → Bytes → Bytes
enc_scalar (text s) r = 0 ∷ text_encoding.enc s r
enc_scalar (other s) r = 1 ∷ text_encoding.enc s r

unfoldable pub dec_scalar : Bytes → Option (Scalar × Bytes)
dec_scalar [] = none
dec_scalar (zero ∷ r) = and_then (text_encoding.dec r) (λ s r'. some (text s, r'))
dec_scalar (suc n ∷ r) = and_then (text_encoding.dec r) (λ s r'. some (other s, r'))

pub scalar_law : (v : Scalar) (r : Bytes) → dec_scalar (enc_scalar v r) ≡ some (v, r)
unfolding dec_scalar enc_scalar
scalar_law (text s) r = rw (dec_text-enc s r) refl
scalar_law (other s) r = rw (dec_text-enc s r) refl

abbrev pub scalar_encoding : Encoding Scalar
scalar_encoding = record { enc = enc_scalar; dec = dec_scalar; dec-enc = scalar_law }

abbrev pub fields_encoding : Encoding (Dict Scalar)
fields_encoding = list_encoding (pair_encoding text_encoding scalar_encoding)

unfoldable pub enc_entry : Entry → Bytes → Bytes
enc_entry (fields m) r = 0 ∷ fields_encoding.enc m r
enc_entry (scalar s) r = 1 ∷ scalar_encoding.enc s r

unfoldable pub dec_entry : Bytes → Option (Entry × Bytes)
dec_entry [] = none
dec_entry (zero ∷ r) = and_then (fields_encoding.dec r) (λ m r'. some (fields m, r'))
dec_entry (suc n ∷ r) = and_then (scalar_encoding.dec r) (λ s r'. some (scalar s, r'))

pub entry_law : (v : Entry) (r : Bytes) → dec_entry (enc_entry v r) ≡ some (v, r)
unfolding dec_entry enc_entry
entry_law (fields m) r = rw (fields_encoding.dec-enc m r) refl
entry_law (scalar s) r = rw (scalar_encoding.dec-enc s r) refl

abbrev pub entry_encoding : Encoding Entry
entry_encoding = record { enc = enc_entry; dec = dec_entry; dec-enc = entry_law }

-- A codec for the values that an encoded type stands for.
module _ {A B : Type 0} (e : Encoding B) (to : A → B) (from : B → A)
    (from-to : (a : A) → from (to a) ≡ a) where
  unfoldable pub decoded : Option (B × Bytes) → Option A
  decoded none = none
  decoded (some (b, r)) = some (from b)

  pub codec_law : (a : A) → decoded (e.dec (e.enc (to a) [])) ≡ some a
  unfolding decoded
  codec_law a = rw (e.dec-enc (to a) [], from-to a) refl

  unfoldable pub codec_of : Codec A
  unfolding decoded
  codec_of = record {
    marshal = λ a. e.enc (to a) [];
    unmarshal = λ s. decoded (e.dec s);
    unmarshal-marshal = codec_law;
  }

abbrev sys_parts : Encoding (Bytes × (Dict Entry × Bytes))
sys_parts =
    pair_encoding text_encoding
      (pair_encoding (list_encoding (pair_encoding text_encoding entry_encoding)) text_encoding)

unfoldable pub sys_codec : Codec Sys
unfolding codec_of
sys_codec =
    codec_of sys_parts (λ s. (s.root_dir, (s.containers, s.log_path)))
      (λ x. record { root_dir = x.0; containers = x.1.0; log_path = x.1.1 }) (λ s. refl)

abbrev image_parts : Encoding (Bytes × Dict Entry)
image_parts =
    pair_encoding text_encoding (list_encoding (pair_encoding text_encoding entry_encoding))

pub image_codec : Codec Image
image_codec =
    codec_of image_parts (λ i. (i.root_dir, i.images))
      (λ x. record { root_dir = x.0; images = x.1 }) (λ i. refl)
