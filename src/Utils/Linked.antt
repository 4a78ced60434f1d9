-- ===== src/Utils/Linked.antt =====
-- A symbolic link that TarLayer of utils/utils.go packs and Untar extracts.
use lpmx.Base.{◌≡◌, refl, ◌∙◌, true, none, some, List, [], ◌∷◌, arith}
use lpmx.Base.Text.{Bytes, eqb_refl}
use lpmx.Base.Strings.{without_prefix}
use lpmx.Base.Paths.{path_base, path_join}
use lpmx.Base.Result.{ok}
use lpmx.Base.World.{World, Node, symlink, put, node-put, os_symlink, ignoring, ignored, >>=-ok}
use lpmx.Utils.Pack.{layer_entry, preceded, header_for}
use lpmx.Utils.Untar.{Header, Stream, eof, entry, untar_entry, untar_entries}

-- The archive of the headers, as it is read.
abbrev pub stream : List Header → Stream
stream [] = eof
stream (h ∷ hs) = entry h (stream hs)

module _ (v : World) (p t : Bytes) where
  linked_once :
      v.node p ≡ none
      → v.writable p ≡ true
      → ignoring (os_symlink t p) v ≡ (ok tt, put v p (some (symlink t)))
  unfolding ignoring os_symlink ignored
  linked_once e o = ground (arith, e, o)

  linked_again : (n : Node) → v.node p ≡ some n → ignoring (os_symlink t p) v ≡ (ok tt, v)
  unfolding ignoring os_symlink ignored
  linked_again n e = ground (arith, e)

  linked_there : (put v p (some (symlink t))).node p ≡ some (symlink t)
  linked_there = node-put v p p (some (symlink t)) ∙ rw (eqb_refl p) refl

-- What TarLayer writes of a symbolic link, extracted by Untar where nothing stands and a link can be
-- made: the link is there with its target, and nothing else changes, although two headers are
-- written, of which the second has another target.
pub untar_entries-layer_entry :
    (w v : World) (src path folder target : Bytes)
    → v.node (path_join folder (without_prefix src path)) ≡ none
    → v.writable (path_join folder (without_prefix src path)) ≡ true
    → untar_entries
        (untar_entry folder)
        (stream (layer_entry w src path (symlink target) ([], ok tt)).0)
        v
      ≡ (ok tt, put v (path_join folder (without_prefix src path)) (some (symlink target)))
unfolding layer_entry preceded header_for untar_entries untar_entry
untar_entries-layer_entry w v src path folder target e o =
    let p = path_join folder (without_prefix src path) in
    let v' = put v p (some (symlink target)) in
    >>=-ok (ignoring (os_symlink target p)) _ v tt v' (linked_once v p target e o)
    ∙ >>=-ok (ignoring (os_symlink (path_base path) p)) _ v' tt v'
        (linked_again v' p (path_base path) (symlink target) (linked_there v p target))
