-- ===== src/Container/Load.antt =====
-- An image gets into the list of images from a file or a folder: DockerLoad, SkopeoLoad and
-- SingularityLoad of container/container.go.
use lpmx.Base.{Bool, true, false, [], ◌∷◌, ◌++◌, if◌then◌else◌}
use lpmx.Base.Text.{Bytes, codes}
use lpmx.Base.Paths.{below}
use lpmx.Base.Dict.{Dict, lookup}
use lpmx.Base.Result.{Kind, Result, ok, err, panic, err_new}
use lpmx.Base.World.{Go, pure, fail, crash, ◌>>=◌, ◌>>◌, deferring}
use lpmx.Utils.Files.{file_exist, folder_exist}
use lpmx.Utils.Folders.{explain, make_dir}
use lpmx.Utils.Moving.{create_temp_dir}
use lpmx.Utils.Untar.{untar}
use lpmx.Docker.Layers.{Loaded, load_docker_tar, load_skopeo_tar}
use lpmx.Singularity.{extract_squashfs, load_squashfs, unsquashfs}
use lpmx.Container.Config.{get_config_dir}
use lpmx.Container.Sys.{Scalar, unmarshal_obj}
use lpmx.Container.Images.{Image}
use lpmx.Container.Maps.{sys_dir}
use lpmx.Container.Install.{
  Supplies, data_dir, drop_temp, already, is_some, open_list, list_image, image_entry, info_for,
  install, install_new,
}

module _ (s : Supplies) where
  -- DockerLoad

  unfoldable pub load_docker_file : Bytes → Bytes → Go (Unit {0})
  unfolding explain file_exist open_list data_dir create_temp_dir untar load_docker_tar install_new
      err_new
  load_docker_file currdir file = do
    afile ← explain (codes "could not parse to the absolute path: " ++ file) (λ w. (s.abs file, w))
    λ w.
        (if file_exist w afile
            then pure tt
            else fail (err_new Kind.n_exist (afile ++ codes " does exist")))
          w
    doc ← open_list s.image_codec (data_dir currdir)
    tmpdir ← create_temp_dir s.machine (below currdir (codes ".temp"))
    untar s.archives afile tmpdir
    (name, l) ←
        load_docker_tar s.machine s.packer s.json tmpdir (below (data_dir currdir) (codes ".image"))
    install_new s currdir doc name l

  unfoldable pub docker_load : Bytes → Go (Unit {0})
  unfolding get_config_dir deferring drop_temp load_docker_file
  docker_load file = do
    currdir ← get_config_dir s.host
    deferring (drop_temp (below currdir (codes ".temp"))) (load_docker_file currdir file)

  -- SkopeoLoad

  unfoldable pub load_skopeo_folder : Bytes → Bytes → Bytes → Go (Unit {0})
  unfolding explain folder_exist open_list data_dir load_skopeo_tar install_new err_new
  load_skopeo_folder currdir name dir = do
    adir ← explain (codes "could not parse the absolute path: ") (λ w. (s.abs dir, w))
    λ w.
        (if folder_exist w adir
            then pure tt
            else fail (err_new Kind.n_exist (adir ++ codes " does exist")))
          w
    doc ← open_list s.image_codec (data_dir currdir)
    l ← load_skopeo_tar s.machine s.packer s.json adir (below (data_dir currdir) (codes ".image"))
    install_new s currdir doc name l

  unfoldable pub skopeo_load : Bytes → Bytes → Go (Unit {0})
  unfolding get_config_dir deferring drop_temp load_skopeo_folder
  skopeo_load name dir = do
    currdir ← get_config_dir s.host
    deferring (drop_temp (below currdir (codes ".temp"))) (load_skopeo_folder currdir name dir)

  -- SingularityLoad

  -- The list of images, and whether its map is nil: an error other than that of a missing file is
  -- passed over, with an empty record.
  unfoldable pub or_nil_list : Bytes → Result Image → Go (Image × Bool)
  unfolding make_dir
  or_nil_list rootdir (ok sig) = pure (sig, false)
  or_nil_list rootdir (err e) = elim e.kind [
    | Kind.n_exist ↦ do make_dir rootdir; pure (record { root_dir = rootdir; images = [] }, false)
    | _ ↦ pure (record { root_dir = []; images = [] }, true)
  ]
  or_nil_list rootdir panic = crash

  -- A write to a nil map panics.
  unfoldable pub list_unless_nil : Bool → Image → Bytes → Dict Scalar → Go (Unit {0})
  unfolding list_image
  list_unless_nil true sig name mdata = crash
  list_unless_nil false sig name mdata = list_image s.image_codec sig name mdata

  unfoldable pub install_sif : Bytes → Image → Bool → Bytes → Bytes → Loaded → Go (Unit {0})
  unfolding install unsquashfs info_for image_entry list_unless_nil
  install_sif currdir sig is_nil name tag l = do
    install s (unsquashfs s.exec s.packer) (data_dir currdir) (sys_dir currdir)
        (below (below sig.root_dir name) tag) name tag
        (info_for s (name ++ b':' ∷ tag) (codes "Sigularity") l) l
    list_unless_nil is_nil sig (name ++ b':' ∷ tag) (
        image_entry s (data_dir currdir) (below (below sig.root_dir name) tag) (codes "Singularity")
          l)

  unfoldable pub load_sif_file : Bytes → Bytes → Bytes → Bytes → Go (Unit {0})
  unfolding file_exist unmarshal_obj or_nil_list data_dir create_temp_dir extract_squashfs
      load_squashfs is_some lookup already install_sif err_new
  load_sif_file currdir file name tag = do
    λ w.
        (if file_exist w file
            then pure tt
            else fail (err_new Kind.n_exist (file ++ codes " does not exist")))
          w
    (sig, is_nil) ← λ w.
        (let (r, w') = unmarshal_obj s.image_codec (data_dir currdir) w in
          or_nil_list (data_dir currdir) r w')
    tmpdir ← create_temp_dir s.machine (below currdir (codes ".temp"))
    rand_id ← λ w. (ok (s.machine.random w 0), w)
    extract_squashfs s.sif file (below tmpdir rand_id)
    l ← load_squashfs s.machine (below tmpdir rand_id) (below (data_dir currdir) (codes ".image"))
    if is_some (lookup (name ++ b':' ∷ tag) sig.images)
        then fail (already (name ++ b':' ∷ tag))
        else install_sif currdir sig is_nil name tag l

  unfoldable pub singularity_load : Bytes → Bytes → Bytes → Go (Unit {0})
  unfolding get_config_dir deferring drop_temp load_sif_file
  singularity_load file name tag = do
    currdir ← get_config_dir s.host
    deferring (drop_temp (below currdir (codes ".temp"))) (load_sif_file currdir file name tag)
