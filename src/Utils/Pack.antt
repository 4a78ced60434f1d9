-- ===== src/Utils/Pack.antt =====
-- TarFiles, TarLayer and ConvertTar2Gzip of utils/utils.go.
use lpmx.Base.{Option, none, some, List, [], ◌∷◌, ◌++◌, if◌then◌else◌}
use lpmx.Base.Text.{Bytes, codes, eqb}
use lpmx.Base.Strings.{without_prefix}
use lpmx.Base.Paths.{below, path_base}
use lpmx.Base.Result.{Kind, Error, Result, ok, err, panic, err_new}
use lpmx.Base.World.{
  Node, file, dir, socket, symlink, World, Go, fail, read_file, resolve, opens, write_file,
}
use lpmx.Utils.Files.{file_exist, folder_exist}
use lpmx.Utils.Folders.{explained}
use lpmx.Utils.Untar.{Header, TypeFlag, type_dir, type_reg, type_symlink, type_other}

-- What tar.NewWriter and gzip.NewWriter leave in a file, and filepath.Walk: the paths that it visits
-- and the error that it tells of each.
pub record Packer : Type 0 where
  pub tar : List Header → Bytes
  pub gzip : Bytes → Bytes
  pub visits : World → Bytes → List (Bytes × Option Error)

-- os.Create with what is then written to the file by `write`, which says how the writing ends.
unfoldable pub creating : Bytes → (World → Result (Unit {0}) × Bytes) → Go (Unit {0})
unfolding opens write_file err_new
creating target write w =
    if opens w target
    then (let empty = write_file w target [] in
        let (r, c) = write empty in (r, write_file empty target c))
    else (err (err_new (Kind.foreign (codes "open")) (target ++ codes " creating error")), w)

-- The entries that a loop writes, up to an error.
abbrev pub Written : Type 0
Written = List Header × Result (Unit {0})

unfoldable pub preceded : Header → Written → Written
preceded h (hs, r) = (h ∷ hs, r)

unfoldable pub header_for : Bytes → Bytes → TypeFlag → Bytes → Header
header_for name linkname typeflag content = record {
  name = name;
  linkname = linkname;
  typeflag = typeflag;
  content = content;
  failure = none;
}

-- TarFiles

-- A file of the list: os.Stat follows a link. A node that is no regular file gets a header and ends
-- the loop.
unfoldable pub tar_file : World → Bytes → Option Node → Written → Written
unfolding header_for preceded err_new read_file path_base
tar_file w fitem none rest =
    ([], err (err_new Kind.file_stat (codes "os.stat " ++ fitem ++ codes " error")))
tar_file w fitem (some (file c)) rest =
    if w.readable (resolve w fitem)
    then preceded (header_for (path_base fitem) [] type_reg c) rest
    else (
      header_for (path_base fitem) [] type_reg [] ∷ [],
      err (err_new (Kind.foreign (codes "open")) (codes "could not open file " ++ fitem)),
    )
tar_file w fitem (some socket) rest =
    ([], err (err_new (Kind.foreign (codes "tar")) (codes "could not get file header")))
tar_file w fitem (some dir) rest = (
  header_for (path_base fitem) [] type_dir [] ∷ [],
  err (
      err_new Kind.type_error
        (fitem ++ codes " is not regular file, only supports regular file compression")),
)
tar_file w fitem (some n) rest = (
  header_for (path_base fitem) [] type_other [] ∷ [],
  err (
      err_new Kind.type_error
        (fitem ++ codes " is not regular file, only supports regular file compression")),
)

unfoldable pub tar_file_list : World → List Bytes → Written
unfolding tar_file resolve
tar_file_list w [] = ([], ok tt)
tar_file_list w (fitem ∷ filelist) =
    tar_file w fitem (w.node (resolve w fitem)) (tar_file_list w filelist)

-- TarLayer

-- The callback on a path that os.Lstat tells `n` of. A symbolic link gets two headers: the code
-- goes on behind the first, and the second has the name of the file in the place of its target.
unfoldable pub layer_entry : World → Bytes → Bytes → Node → Written → Written
unfolding header_for preceded without_prefix path_base
layer_entry w src file_path (symlink t) rest =
    preceded (header_for (without_prefix src file_path) t type_symlink []) (
      preceded (header_for (without_prefix src file_path) (path_base file_path) type_symlink [])
        rest)
layer_entry w src file_path (file c) rest =
    if w.readable file_path
    then preceded (header_for (without_prefix src file_path) [] type_reg c) rest
    else (
      header_for (without_prefix src file_path) [] type_reg [] ∷ [],
      err (record { kind = Kind.foreign (codes "open"); msg = [] }),
    )
layer_entry w src file_path dir rest =
    preceded (header_for (without_prefix src file_path) [] type_dir []) rest
layer_entry w src file_path socket rest =
    ([], err (record { kind = Kind.foreign (codes "tar"); msg = [] }))
layer_entry w src file_path n rest =
    preceded (header_for (without_prefix src file_path) [] type_other []) rest

unfoldable pub layer_visit : World → Bytes → Bytes → Option Error → Option Node → Written → Written
unfolding layer_entry
layer_visit w src file_path (some e) n rest = ([], err e)
layer_visit w src file_path none none rest = rest
layer_visit w src file_path none (some n) rest =
    if eqb file_path src then rest else layer_entry w src file_path n rest

unfoldable pub layer_entries : World → Bytes → List (Bytes × Option Error) → Written
unfolding layer_visit
layer_entries w src [] = ([], ok tt)
layer_entries w src ((file_path, failure) ∷ visits) =
    layer_visit w src file_path failure (w.node file_path) (layer_entries w src visits)

module _ (k : Packer) where
  unfoldable pub archived :
      (Result (Unit {0}) → Result (Unit {0})) → Written → Result (Unit {0}) × Bytes
  archived f (hs, r) = (f r, k.gzip (k.tar hs))

  -- TarFiles
  unfoldable pub tar_files : List Bytes → Bytes → Bytes → Go (Unit {0})
  unfolding creating archived tar_file_list
  tar_files filelist target_folder target_name =
      creating (below target_folder target_name ++ codes ".tar.gz")
        (λ w. archived (λ r. r) (tar_file_list w filelist))

  -- TarLayer; it does not look at its last argument.
  unfoldable pub tar_layer : Bytes → Bytes → Bytes → List Bytes → Go (Unit {0})
  unfolding folder_exist creating archived explained layer_entries err_new
  tar_layer src_folder target_folder target_name layers w =
      if folder_exist w src_folder
      then creating (below target_folder target_name ++ codes ".tar.gz")
          (λ v.
            archived (explained (codes "tar file error"))
              (layer_entries v src_folder (k.visits v src_folder)))
          w
      else (err (err_new Kind.n_exist (src_folder ++ codes " folder not exist")), w)

  -- os.Open of the source and io.Copy
  unfoldable pub zipped : Result Bytes → Result (Unit {0}) × Bytes
  unfolding err_new
  zipped (ok c) = (ok tt, k.gzip c)
  zipped (err e) = (err (err_new e.kind (codes "could not open file")), k.gzip [])
  zipped panic = (panic, k.gzip [])

  -- ConvertTar2Gzip
  unfoldable pub convert_tar2_gzip : Bytes → Bytes → Go (Unit {0})
  unfolding file_exist creating zipped read_file err_new
  convert_tar2_gzip src_file target_file w =
      if file_exist w src_file
      then (if file_exist w target_file
            then fail
                (err_new Kind.exist (target_file ++ codes " file exists, could not overwrite it"))
            else creating target_file (λ v. zipped (read_file v src_file)))
          w
      else (err (err_new Kind.n_exist (src_file ++ codes " file does not exist")), w)
