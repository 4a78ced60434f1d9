-- ===== src/Docker/Complete.antt =====
-- The layers that the loop of DownloadLayers of docker/docker.go leaves.
use lpmx.Base.{
  ◌≡◌, refl, sym, ap, ◌∙◌, true, inl, inr, Bool-cases, none, some, List, [], ◌∷◌, ◌⊎◌, All, length,
}
use mathlib.Core.Path.{subst}
use lpmx.Base.Text.{Bytes, codes}
use lpmx.Base.Strings.{without_suffix}
use lpmx.Base.Dict.{lookup}
use lpmx.Base.Result.{Result, ok}
use lpmx.Base.World.{World, file, Go, ◌>>=◌, >>=-eq-ok, write_file, resolve}
use lpmx.Utils.Files.{file_exist, folder_exist}
use lpmx.Utils.Folders.{explain}
use lpmx.Utils.Moving.{Machine, get_file_size}
use lpmx.Docker.Layers.{
  Layer, Blob, Hub, Loaded, none_loaded, loaded_too, loaded_once, fill_file, layer_file, keep_layer,
  download_each, full_name, connected, download_layers,
}
use lpmx.Container.Generate.Links.{make_missing}
use lpmx.Docker.Rounds.{
  has, add_new, adds, has-adds, has_added, explain-eq-ok, there, there_split, Progress, Advance,
  filled, layer_files, found_Advance, written_Advance,
}

module _ (m : Machine) (contents : Bytes → Bytes) (w : World) (folder : Bytes) where
  module _ (hub : Hub) where
    keep_layer-Advance :
        (layer : Layer) (l : Loaded) (b : Blob) (v : World) (l' : Loaded) (v' : World)
        → Progress m contents w folder v l
        → layer.size ≡ length (contents (layer_file folder layer.digest))
        → (b.failure ≡ none → b.content ≡ contents (layer_file folder layer.digest))
        → keep_layer m hub (layer_file folder layer.digest) layer l b v ≡ (ok l', v')
        → Advance m contents w folder v' l' (layer_file folder layer.digest) l.layer_order
    unfolding keep_layer
    keep_layer-Advance layer l b v l' v' k z c h =
        let p = layer_file folder layer.digest in
        elim (Bool-cases (there m contents v p)) [
          | inl e ↦
              let g : (ok (loaded_once (lookup p l.layer_data) l p (length (contents p))), v)
                  ≡ (ok l', v') =
                rw (z, e) at h in
              let same : (loaded_once (lookup p l.layer_data) l p (length (contents p)), v)
                  ≡ (l', v') =
                cc in
              subst (λ (r : Loaded × World). Advance m contents w folder r.1 r.0 p l.layer_order)
                same (found_Advance m contents w folder v l layer.digest k e)
          | inr e ↦
              let next : Unit {0} → Go Loaded =
                λ u v1. (ok (loaded_too l p (length (contents p))), v1) in
              let g0 : (fill_file p b >>= next) v ≡ (ok l', v') = rw (z, e) at h in
              let (u, v1, f, g) = >>=-eq-ok (fill_file p b) next v g0 in
              let (o, x) = filled m contents w folder p b v v1 c f in
              let same : (loaded_too l p (length (contents p)), write_file v p (contents p))
                  ≡ (l', v') =
                cc in
              subst (λ (r : Loaded × World). Advance m contents w folder r.1 r.0 p l.layer_order)
                same (written_Advance m contents w folder v l layer.digest k e o)
        ]

    -- A hub that leaves the machine, hands out what belongs to a digest if it can be read to its
    -- end, and tells the sizes of that.
    pub record IsFaithful : Type 0 where
      pub connects : (user pass : Bytes) (v : World) → (hub.connect user pass v).1 ≡ v
      pub lists : (name tag : Bytes) (v : World) → (hub.manifest_v2 name tag v).1 ≡ v
      pub sends : (name d : Bytes) (v : World) → (hub.download_blob name d v).1 ≡ v
      pub sizes :
          (name tag : Bytes) (v : World) (man : List Layer)
          → (hub.manifest_v2 name tag v).0 ≡ ok man
          → All
              (λ (layer : Layer). layer.size ≡ length (contents (layer_file folder layer.digest)))
              man
      pub blobs :
          (name d : Bytes) (v : World) (b : Blob)
          → (hub.download_blob name d v).0 ≡ ok b
          → b.failure ≡ none
          → b.content ≡ contents (layer_file folder d)

    download_each-Progress :
        IsFaithful
        → without_suffix (codes "/") folder ≡ folder
        → (name : Bytes) (layers : List Layer) (l : Loaded) (v : World) (l' : Loaded) (v' : World)
        → Progress m contents w folder v l
        → All
            (λ (layer : Layer). layer.size ≡ length (contents (layer_file folder layer.digest)))
            layers
        → download_each m hub name folder layers l v ≡ (ok l', v')
        → Progress m contents w folder v' l'
          × (l'.layer_order ≡ adds l.layer_order (layer_files folder layers))
    unfolding download_each
    download_each-Progress faith s name [] l v l' v' k z h =
        let same : (l, v) ≡ (l', v') = cc in
        subst
          (λ (r : Loaded × World).
            Progress m contents w folder r.1 r.0 × (r.0.layer_order ≡ l.layer_order))
          same (k, refl)
    download_each-Progress faith s name (layer ∷ layers) l v l' v' k (z, zs) h =
        let p = layer_file folder layer.digest in
        let (b, v1, e1, h1) =
          >>=-eq-ok
            (explain (codes "download docker layers failure") (hub.download_blob name layer.digest))
            _ v h in
        let got : (hub.download_blob name layer.digest v).0 ≡ ok b =
          explain-eq-ok (codes "download docker layers failure")
            (hub.download_blob name layer.digest) b v v1 e1 in
        let still : v ≡ v1 =
          sym (faith.sends name layer.digest v) ∙ ap (λ (r : Result Blob × World). r.1) e1 in
        let (l2, v2, e2, h2) =
          >>=-eq-ok
            (keep_layer m hub (layer_file (without_suffix (codes "/") folder) layer.digest) layer l
              b)
            _ v1 h1 in
        let a =
          keep_layer-Advance layer l b v1 l2 v2
            (subst (λ w1. Progress m contents w folder w1 l) still k) z
            (faith.blobs name layer.digest v b got)
            (subst (λ f. keep_layer m hub (layer_file f layer.digest) layer l b v1 ≡ (ok l2, v2)) s
              e2) in
        let (k', o) =
          download_each-Progress faith s name layers l2 v2 l' v' a.progress zs
            (subst (λ f. download_each m hub name f layers l2 v2 ≡ (ok l', v')) s h2) in
        (k', o ∙ ap (λ qs. adds qs (layer_files folder layers)) a.order)

    start :
        ((d : Bytes) → resolve w (layer_file folder d) ≡ layer_file folder d)
        → Progress m contents w folder w none_loaded
    unfolding none_loaded lookup
    start pl = record {
      known = λ q. refl;
      plain = pl;
      origin = λ q. inl refl;
      stored = λ d h. absurd (cc);
    }

    -- A layer that is there: listed with its size, as a file of that size.
    abbrev pub Holds : World → Loaded → Layer → Type 0
    Holds v l layer =
        (lookup (layer_file folder layer.digest) l.layer_data ≡ some layer.size)
        × (file_exist v (layer_file folder layer.digest) ≡ true)
        × ((get_file_size m (layer_file folder layer.digest) v).0 ≡ ok layer.size)

    each-Holds :
        (v : World) (l : Loaded) (layers : List Layer) (ps : List Bytes)
        → Progress m contents w folder v l
        → l.layer_order ≡ adds ps (layer_files folder layers)
        → All
            (λ (layer : Layer). layer.size ≡ length (contents (layer_file folder layer.digest)))
            layers
        → All (Holds v l) layers
    each-Holds v l [] ps k o zs = tt
    each-Holds v l (layer ∷ layers) ps k o (z, zs) =
        let p = layer_file folder layer.digest in
        let listed : has p l.layer_order ≡ true =
          rw o (has-adds p (add_new ps p) (layer_files folder layers) (has_added p ps)) in
        let (x, y) = there_split m contents v p (k.stored layer.digest listed) in
        (
          (rw z (k.known p ∙ rw listed refl), x, rw z y),
          each-Holds v l layers (add_new ps p) k o zs,
        )

    -- DownloadLayers below a folder that is there and is written without a slash at its end,
    -- where no file of a layer is a link, and from a hub that leaves the machine, that hands out
    -- what belongs to a digest if it can be read to its end, and whose manifests tell the sizes
    -- of that: if it succeeds, the order of the layers is that of the manifest, each file once
    -- and where it comes first; each layer of the manifest has its size in the map, and a file
    -- of this size; and every path is what it was or a file with the contents of its layer.
    pub download_layers_lem :
        IsFaithful
        → (username pass name tag : Bytes) (l : Loaded) (w' : World)
        → without_suffix (codes "/") folder ≡ folder
        → folder_exist w folder ≡ true
        → ((d : Bytes) → resolve w (layer_file folder d) ≡ layer_file folder d)
        → download_layers m hub username pass name tag folder w ≡ (ok l, w')
        → (man : List Layer) × ((hub.manifest_v2 (full_name name) tag w).0 ≡ ok man)
          × (l.layer_order ≡ adds [] (layer_files folder man))
          × All (Holds w' l) man
          × ((q : Bytes) → (w'.node q ≡ w.node q) ⊎ (w'.node q ≡ some (file (contents q))))
    unfolding download_layers make_missing connected none_loaded
    download_layers_lem faith username pass name tag l w' s x pl h =
        let (u1, w1, e1, h1) = >>=-eq-ok (make_missing folder) _ w h in
        let g1 : w ≡ w1 = ap (λ (r : Result (Unit {0}) × World). r.1) (rw x at e1) in
        let (u2, w2, e2, h2) = >>=-eq-ok (connected m hub username pass) _ w1 h1 in
        let g2 : w ≡ w2 =
          g1
          ∙ (sym (faith.connects username pass w1)
              ∙ ap (λ (r : Result (Unit {0}) × World). r.1) e2) in
        let ask = hub.manifest_v2 (full_name name) tag in
        let (man, w3, e3, h3) =
          >>=-eq-ok (explain (codes "query docker manifest failure") ask) _ w2 h2 in
        let g3 : w ≡ w3 =
          g2
          ∙ (sym (faith.lists (full_name name) tag w2)
              ∙ ap (λ (r : Result (List Layer) × World). r.1) e3) in
        let got2 : (ask w2).0 ≡ ok man =
          explain-eq-ok (codes "query docker manifest failure") ask man w2 w3 e3 in
        let got : (ask w).0 ≡ ok man = subst (λ v. (ask v).0 ≡ ok man) (sym g2) got2 in
        let zs = faith.sizes (full_name name) tag w man got in
        let (k, o) =
          download_each-Progress faith s (full_name name) man none_loaded w3 l w'
            (subst (λ v. Progress m contents w folder v none_loaded) g3 (start pl)) zs h3 in
        (man, got, o, each-Holds w' l man [] k o zs, k.origin)
