-- ===== src/Container/Tests/Containers.antt =====
-- An encoding of containers, which the tests use in the place of msgpack.
use lpmx.Base.{zero, suc, ◌≡◌, refl, Option, none, some, List, [], ◌∷◌}
use lpmx.Base.Text.{Bytes}
use lpmx.Base.Dict.{Dict}
use lpmx.Base.Numbers.{ℤ, pos, negsuc}
use lpmx.Container.Sys.{Scalar, Codec}
use lpmx.Container.Conf.{
  Field, one, many, Item, absent, keyed, named, plain, Setting, single, items,
}
use lpmx.Container.Append.{Container}
use lpmx.Container.Tests.Encoding.{
  Encoding, and_then, text_encoding, pair_encoding, list_encoding, scalar_encoding, codec_of,
}

enc_int : ℤ → Bytes → Bytes
enc_int (pos n) r = 0 ∷ n ∷ r
enc_int (negsuc n) r = 1 ∷ n ∷ r

dec_int : Bytes → Option (ℤ × Bytes)
dec_int [] = none
dec_int (t ∷ []) = none
dec_int (zero ∷ n ∷ r) = some (pos n, r)
dec_int (suc t ∷ n ∷ r) = some (negsuc n, r)

dec_int-enc : (k : ℤ) (r : Bytes) → dec_int (enc_int k r) ≡ some (k, r)
unfolding dec_int enc_int
dec_int-enc (pos n) r = refl
dec_int-enc (negsuc n) r = refl

abbrev int_encoding : Encoding ℤ
int_encoding = record { enc = enc_int; dec = dec_int; dec-enc = dec_int-enc }

enc_field : Field → Bytes → Bytes
enc_field (one v) r = 0 ∷ scalar_encoding.enc v r
enc_field (many vs) r = 1 ∷ (list_encoding scalar_encoding).enc vs r

dec_field : Bytes → Option (Field × Bytes)
dec_field [] = none
dec_field (zero ∷ r) = and_then (scalar_encoding.dec r) (λ v r'. some (one v, r'))
dec_field (suc t ∷ r) =
    and_then ((list_encoding scalar_encoding).dec r) (λ vs r'. some (many vs, r'))

dec_field-enc : (f : Field) (r : Bytes) → dec_field (enc_field f r) ≡ some (f, r)
unfolding dec_field enc_field
dec_field-enc (one v) r = rw (scalar_encoding.dec-enc v r) refl
dec_field-enc (many vs) r = rw ((list_encoding scalar_encoding).dec-enc vs r) refl

abbrev field_encoding : Encoding Field
field_encoding = record { enc = enc_field; dec = dec_field; dec-enc = dec_field-enc }

abbrev keyed_encoding : Encoding (List (Scalar × Field))
keyed_encoding = list_encoding (pair_encoding scalar_encoding field_encoding)

abbrev named_encoding : Encoding (Dict Field)
named_encoding = list_encoding (pair_encoding text_encoding field_encoding)

enc_item : Item → Bytes → Bytes
enc_item absent r = 0 ∷ r
enc_item (keyed kvs) r = 1 ∷ keyed_encoding.enc kvs r
enc_item (named kvs) r = 2 ∷ named_encoding.enc kvs r
enc_item (plain v) r = 3 ∷ scalar_encoding.enc v r

dec_item : Bytes → Option (Item × Bytes)
dec_item [] = none
dec_item (zero ∷ r) = some (absent, r)
dec_item (suc zero ∷ r) = and_then (keyed_encoding.dec r) (λ kvs r'. some (keyed kvs, r'))
dec_item (suc (suc zero) ∷ r) = and_then (named_encoding.dec r) (λ kvs r'. some (named kvs, r'))
dec_item (suc (suc (suc t)) ∷ r) = and_then (scalar_encoding.dec r) (λ v r'. some (plain v, r'))

dec_item-enc : (i : Item) (r : Bytes) → dec_item (enc_item i r) ≡ some (i, r)
unfolding dec_item enc_item
dec_item-enc absent r = refl
dec_item-enc (keyed kvs) r = rw (keyed_encoding.dec-enc kvs r) refl
dec_item-enc (named kvs) r = rw (named_encoding.dec-enc kvs r) refl
dec_item-enc (plain v) r = rw (scalar_encoding.dec-enc v r) refl

abbrev item_encoding : Encoding Item
item_encoding = record { enc = enc_item; dec = dec_item; dec-enc = dec_item-enc }

enc_setting : Setting → Bytes → Bytes
enc_setting (single v) r = 0 ∷ scalar_encoding.enc v r
enc_setting (items ds) r = 1 ∷ (list_encoding item_encoding).enc ds r

dec_setting : Bytes → Option (Setting × Bytes)
dec_setting [] = none
dec_setting (zero ∷ r) = and_then (scalar_encoding.dec r) (λ v r'. some (single v, r'))
dec_setting (suc t ∷ r) =
    and_then ((list_encoding item_encoding).dec r) (λ ds r'. some (items ds, r'))

dec_setting-enc : (s : Setting) (r : Bytes) → dec_setting (enc_setting s r) ≡ some (s, r)
unfolding dec_setting enc_setting
dec_setting-enc (single v) r = rw (scalar_encoding.dec-enc v r) refl
dec_setting-enc (items ds) r = rw ((list_encoding item_encoding).dec-enc ds r) refl

abbrev setting_encoding : Encoding Setting
setting_encoding = record { enc = enc_setting; dec = dec_setting; dec-enc = dec_setting-enc }

abbrev Four : Type 0
Four = (Bytes × Bytes) × (Bytes × Bytes)

abbrev four_encoding : Encoding Four
four_encoding =
    pair_encoding (pair_encoding text_encoding text_encoding)
      (pair_encoding text_encoding text_encoding)

abbrev Rest : Type 0
Rest = (ℤ × ℤ) × (Dict Setting × List (ℤ × Bytes))

abbrev rest_encoding : Encoding Rest
rest_encoding = pair_encoding (pair_encoding int_encoding int_encoding) (
    pair_encoding (list_encoding (pair_encoding text_encoding setting_encoding))
      (list_encoding (pair_encoding int_encoding text_encoding)))

abbrev Parts : Type 0
Parts = (Four × (Four × Four)) × ((Four × (Four × Four)) × Rest)

abbrev parts_encoding : Encoding Parts
parts_encoding =
    pair_encoding (pair_encoding four_encoding (pair_encoding four_encoding four_encoding)) (
      pair_encoding (pair_encoding four_encoding (pair_encoding four_encoding four_encoding))
        rest_encoding)

abbrev parts_of : Container → Parts
parts_of c = (
  (
    ((c.id, c.root_path), (c.setting_path, c.config_path)),
    (
      ((c.base_layer_path, c.container_name), (c.base_type, c.image_base)),
      ((c.data_sync_folder, c.data_sync_map), (c.engine, c.file_sync_map)),
    ),
  ),
  (
    (
      ((c.sys_folder, c.layers), (c.expose_exe, c.user_shell)),
      (
        ((c.patched_elf_loader, c.execmaps), (c.elf_patcher_path, c.log_path)),
        ((c.start_time, c.create_user), (c.current_user, c.pid_file)),
      ),
    ),
    ((c.rpc_port, c.pid), (c.setting_conf, c.rpc_map)),
  ),
)

abbrev of_parts : Parts → Container
of_parts p = record {
  id = p.0.0.0.0;
  root_path = p.0.0.0.1;
  setting_path = p.0.0.1.0;
  config_path = p.0.0.1.1;
  base_layer_path = p.0.1.0.0.0;
  container_name = p.0.1.0.0.1;
  base_type = p.0.1.0.1.0;
  image_base = p.0.1.0.1.1;
  data_sync_folder = p.0.1.1.0.0;
  data_sync_map = p.0.1.1.0.1;
  engine = p.0.1.1.1.0;
  file_sync_map = p.0.1.1.1.1;
  sys_folder = p.1.0.0.0.0;
  layers = p.1.0.0.0.1;
  expose_exe = p.1.0.0.1.0;
  user_shell = p.1.0.0.1.1;
  patched_elf_loader = p.1.0.1.0.0.0;
  execmaps = p.1.0.1.0.0.1;
  elf_patcher_path = p.1.0.1.0.1.0;
  log_path = p.1.0.1.0.1.1;
  start_time = p.1.0.1.1.0.0;
  create_user = p.1.0.1.1.0.1;
  current_user = p.1.0.1.1.1.0;
  pid_file = p.1.0.1.1.1.1;
  rpc_port = p.1.1.0.0;
  pid = p.1.1.0.1;
  setting_conf = p.1.1.1.0;
  rpc_map = p.1.1.1.1;
}

pub con_codec : Codec Container
unfolding codec_of
con_codec = codec_of parts_encoding parts_of of_parts (λ c. refl)
