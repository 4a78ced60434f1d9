-- ===== src/Container/Listed.antt =====
-- The list of images behind DockerDownload of container/container.go.
use lpmx.Base.{
  ◌≡◌, refl, ap, sym, ◌∙◌, true, false, inl, inr, Bool-cases, some, arith, if◌then◌else◌,
}
use mathlib.Core.Path.{subst}
use lpmx.Base.Text.{Bytes, codes, eqb}
use lpmx.Base.Dict.{Dict, lookup, insert, lookup-insert}
use lpmx.Base.Result.{ok, err}
use lpmx.Base.World.{
  World, >>=-ok, >>=-eq-ok, write_file, resolve, opens, put, read_file-write_file,
}
use lpmx.Utils.Files.{write_to_file, file_exist-write_file}
use lpmx.Base.Paths.{below}
use lpmx.Utils.Untar.{untar}
use lpmx.Compose.Run.{two_parts}
use lpmx.Docker.Layers.{Loaded, download_layers}
use lpmx.Container.Config.{get_config_dir}
use lpmx.Container.Sys.{Scalar, fields, Codec, unmarshal_obj, unmarshal_obj-marshal, info_of}
use lpmx.Container.Images.{Image}
use lpmx.Container.Initial.{tagged}
use lpmx.Container.Install.{
  Supplies, data_dir, open_list, list_image, is_some, already, image_entry, install, install_named,
  download_new, download_unless_listed, docker_download,
}

written :
    (c p : Bytes) (w w' : World)
    → write_to_file c p w ≡ (ok tt, w')
    → (opens w p ≡ true) × (w' ≡ write_file w p c)
unfolding write_to_file
written c p w w' h = ground arith

-- The list `doc` with one image more, below the same folder.
pub record Gains (ci : Codec Image) (doc : Image) (name : Bytes) (mdata : Dict Scalar) (w : World)
    : Type 0 where
  pub doc' : Image
  pub loaded : (unmarshal_obj ci doc.root_dir w).0 ≡ ok doc'
  pub root : doc'.root_dir ≡ doc.root_dir
  pub listed :
      (k : Bytes)
      → lookup k doc'.images ≡ (if eqb name k then some (fields mdata) else lookup k doc.images)

list_image-Gains :
    (ci : Codec Image) (doc : Image) (name : Bytes) (mdata : Dict Scalar) (w w' : World)
    → list_image ci doc name mdata w ≡ (ok tt, w')
    → ((p : Bytes) → w'.readable p ≡ true)
    → Gains ci doc name mdata w'
unfolding list_image
list_image-Gains ci doc name mdata w w' h r =
    let p = info_of doc.root_dir in
    let new : Image = record doc { images = insert name (fields mdata) doc.images } in
    let (o, e) = written (ci.marshal new) p w w' h in
    let r' : w.readable (resolve w p) ≡ true =
      unfold write_file put in
      (sym (ap (λ (v : World). v.readable (resolve w p)) e) ∙ r (resolve w p)) in
    record {
      doc' = new;
      loaded =
          subst (λ v. (unmarshal_obj ci doc.root_dir v).0 ≡ ok new) (sym e)
            (unmarshal_obj-marshal ci doc.root_dir new (write_file w p (ci.marshal new))
              (file_exist-write_file w p (ci.marshal new) o)
              (read_file-write_file w p (ci.marshal new) r'));
      root = refl;
      listed = λ k. lookup-insert name k (fields mdata) doc.images;
    }

module _ (s : Supplies) where
  install_named-Gains :
      (currdir : Bytes) (doc : Image) (name imagetype : Bytes) (l : Loaded) (w w' : World)
      → install_named s currdir doc name imagetype l w ≡ (ok tt, w')
      → ((p : Bytes) → w'.readable p ≡ true)
      → (dir : Bytes) × Gains s.image_codec doc name
          (image_entry s (data_dir currdir) dir imagetype l)
          w'
  unfolding install_named
  install_named-Gains currdir doc name imagetype l w w' h r =
      let (parts, w1, e1, h1) = >>=-eq-ok (two_parts b':' name) _ w h in
      let dir = below (below doc.root_dir parts.0) parts.1 in
      let (u, w2, e2, h2) = >>=-eq-ok (install s (untar s.archives) _ _ dir _ _ _ l) _ w1 h1 in
      (dir, list_image-Gains s.image_codec doc name _ w2 w' h2 r)

  download_new-Gains :
      (currdir : Bytes) (doc : Image) (name user pass : Bytes) (w w' : World)
      → download_new s currdir doc name user pass w ≡ (ok tt, w')
      → ((p : Bytes) → w'.readable p ≡ true)
      → (dir : Bytes) × (l : Loaded) × Gains s.image_codec doc name
          (image_entry s (data_dir currdir) dir (codes "Docker") l)
          w'
  unfolding download_new
  download_new-Gains currdir doc name user pass w w' h r =
      let (parts, w1, e1, h1) = >>=-eq-ok (two_parts b':' name) _ w h in
      let (l, w2, e2, h2) = >>=-eq-ok (download_layers s.machine s.hub user pass _ _ _) _ w1 h1 in
      let (dir, g) = install_named-Gains currdir doc name (codes "Docker") l w2 w' h2 r in
      (dir, l, g)

  module _ (name user pass currdir : Bytes) (doc : Image) (w w1 : World)
      (found : get_config_dir s.host w ≡ (ok currdir, w))
      (opened : open_list s.image_codec (data_dir currdir) w ≡ (ok doc, w1)) where
    pub download-starts :
        docker_download s name user pass w
        ≡ download_unless_listed s currdir (tagged name) user pass doc w1
    unfolding docker_download
    download-starts =
        >>=-ok (get_config_dir s.host) _ w currdir w found
        ∙ >>=-ok (open_list s.image_codec (data_dir currdir))
            (download_unless_listed s currdir (tagged name) user pass) w doc w1 opened

    refused :
        is_some (lookup (tagged name) doc.images) ≡ true
        → download_unless_listed s currdir (tagged name) user pass doc w1
          ≡ (err (already (tagged name)), w1)
    unfolding download_unless_listed
    refused e = rw e refl

    ran :
        (w' : World)
        → is_some (lookup (tagged name) doc.images) ≡ false
        → download_unless_listed s currdir (tagged name) user pass doc w1 ≡ (ok tt, w')
        → download_new s currdir doc (tagged name) user pass w1 ≡ (ok tt, w')
    unfolding download_unless_listed
    ran w' e h = rw e at h

    -- DockerDownload of an image that is listed already, where the list of images can be opened: it
    -- fails with the error that says so, and nothing changes behind the opening of the list.
    pub docker_download_refuses :
        is_some (lookup (tagged name) doc.images) ≡ true
        → docker_download s name user pass w ≡ (err (already (tagged name)), w1)
    docker_download_refuses e = download-starts ∙ refused e

    -- DockerDownload, where the list of images can be opened and all files can be read in the end: if
    -- it succeeds, the image was not listed, and the list then has the image, with an entry that names
    -- its layers, and for every other name what it had.
    pub docker_download_lists :
        (w' : World)
        → ((p : Bytes) → w'.readable p ≡ true)
        → docker_download s name user pass w ≡ (ok tt, w')
        → (is_some (lookup (tagged name) doc.images) ≡ false)
          × (dir : Bytes) × (l : Loaded) × Gains s.image_codec doc
              (tagged name)
              (image_entry s (data_dir currdir) dir (codes "Docker") l)
              w'
    docker_download_lists w' r h = elim (Bool-cases (is_some (lookup (tagged name) doc.images))) [
      | inl e ↦ cc (sym (refused e) ∙ sym download-starts ∙ h)
      | inr e ↦
          let (dir, l, g) =
            download_new-Gains currdir doc (tagged name) user pass w1 w'
              (ran w' e (sym download-starts ∙ h)) r in
          (e, dir, l, g)
    ]
