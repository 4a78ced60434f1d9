-- ===== src/Container/Leave.antt =====
-- The deferred function of Run of container/container.go: what a run leaves behind.
use lpmx.Base.{◌≡◌, refl, ap, sym, ◌∙◌, Bool, true, some, List, arith, if◌then◌else◌}
use mathlib.Core.Path.{subst}
use lpmx.Base.Text.{Bytes, eqb, eqb_iff}
use lpmx.Base.Numbers.{negsuc}
use lpmx.Base.Dict.{Dict, lookup}
use lpmx.Base.Result.{Result, ok}
use lpmx.Base.World.{
  World, write_file, resolve, resolve-write_file, opens, put, read_file-write_file, ignoring,
  ignored,
}
use lpmx.Utils.Files.{read_from_file, file_exist-write_file}
use lpmx.Container.Config.{Host, IsElsewhere, get_config_dir-write_file}
use lpmx.Container.Sys.{
  Scalar, fields, Sys, Codec, unmarshal_obj, info_of, IsApart, resolve-apart, read_file-apart,
  file_exist-apart, unmarshal_obj-marshal,
}
use lpmx.Container.Maps.{sys_dir}
use lpmx.Container.Append.{Container, entry_for, with_entry, append_to_sys}
use lpmx.Container.Registry.{IsRegistry, write_ok, stored}
use lpmx.Container.Lifecycle.{append-stored, append_to_sys_lem}
use lpmx.Container.Run.{run_body, run_from, leave}
use lpmx.Container.Shell.{Outside}

-- con with the pid that the deferred function gives it.
abbrev pub stopped : Container → Container
stopped con = record con { pid = negsuc 0 }

opens-apart : (w : World) (p q s : Bytes) → IsApart w p q → opens (write_file w p s) q ≡ opens w q
unfolding opens write_file put
opens-apart w p q s a =
    ground (arith, resolve-apart w p q s a, eqb_iff (resolve w p) (resolve w q), a.target)

unmarshal-apart :
    {A : Type 0} (c : Codec A) (dir p s : Bytes) (w : World)
    → IsApart w p (info_of dir)
    → (unmarshal_obj c dir (write_file w p s)).0 ≡ (unmarshal_obj c dir w).0
unfolding unmarshal_obj read_from_file
unmarshal-apart c dir p s w a =
    ground (arith, file_exist-apart w p (info_of dir) s a, read_file-apart w p (info_of dir) s a)

-- The file of a container, which can be written and read, is neither the registry nor the program,
-- nor is the registry what it leads to.
pub record IsOwn (h : Host) (dir cfg : Bytes) (w : World) : Type 0 where
  pub can_write : opens w (info_of cfg) ≡ true
  pub can_read : w.readable (resolve w (info_of cfg)) ≡ true
  pub apart : IsApart w (info_of cfg) (info_of (sys_dir dir))
  pub apart_back : IsApart w (info_of (sys_dir dir)) (info_of cfg)
  pub elsewhere : IsElsewhere h (resolve w (info_of cfg))

module _ (o : Outside) (dir : Bytes) (sys : Sys) (w : World)
    (g : IsRegistry o.host o.sys_codec dir sys w) (con : Container)
    (own : IsOwn o.host dir con.config_path w) where
  p : Bytes
  p = info_of con.config_path

  -- The machine when the file of the container is written.
  kept_world : World
  kept_world = write_file w p (o.con_codec.marshal (stopped con))

  kept-IsRegistry : IsRegistry o.host o.sys_codec dir sys kept_world
  unfolding p kept_world
  kept-IsRegistry =
      let q = info_of (sys_dir dir) in
      let s = o.con_codec.marshal (stopped con) in
      record {
        found = get_config_dir-write_file o.host w p s own.elsewhere ∙ g.found;
        loaded = unmarshal-apart o.sys_codec (sys_dir dir) p s w own.apart ∙ g.loaded;
        placed = g.placed;
        can_write = opens-apart w p q s own.apart ∙ g.can_write;
        can_read = rw (resolve-apart w p q s own.apart) (unfold write_file put in g.can_read);
        elsewhere =
            subst (λ r. IsElsewhere o.host r) (sym (resolve-apart w p q s own.apart)) g.elsewhere;
      }

  kept-IsApart : IsApart kept_world (info_of (sys_dir dir)) p
  unfolding p kept_world
  kept-IsApart =
      let s = o.con_codec.marshal (stopped con) in
      record {
        path = rw (resolve-apart w p (info_of (sys_dir dir)) s own.apart) own.apart_back.path;
        target =
            rw (resolve-apart w p (info_of (sys_dir dir)) s own.apart, resolve-write_file w p s)
              own.apart_back.target;
      }

  module _ (m : Dict Scalar)
      (e : entry_for (stopped con) (lookup con.id sys.containers) ≡ ok m) where
    leave-stored : leave o con w ≡ (
      ok tt,
      stored o.host o.sys_codec dir sys kept_world kept-IsRegistry (with_entry sys con.id m),
    )
    unfolding leave ignoring ignored p kept_world
    leave-stored =
        rw
          (
            write_ok (o.con_codec.marshal (stopped con)) p w own.can_write,
            append-stored o.host o.sys_codec dir sys kept_world kept-IsRegistry (stopped con) m e,
          )
          refl

    leave-IsRegistry :
        (sys' : Sys) × IsRegistry o.host o.sys_codec dir sys' (leave o con w).1
        × ((k : Bytes)
            → lookup k sys'.containers
              ≡ (if eqb con.id k then some (fields m) else lookup k sys.containers))
    leave-IsRegistry =
        let (r, sys', g', l) =
          append_to_sys_lem o.host o.sys_codec dir sys kept_world kept-IsRegistry (stopped con) m
            e in
        (sys', subst (λ v. IsRegistry o.host o.sys_codec dir sys' v) same g', l)
      where
        same : (append_to_sys o.host o.sys_codec (stopped con) kept_world).1 ≡ (leave o con w).1
        same =
            ap (λ x. x.1)
              (append-stored o.host o.sys_codec dir sys kept_world kept-IsRegistry (stopped con) m e
                ∙ ap (λ x. (ok (record (stopped con) { sys_folder = sys_dir dir }), x.1))
                    (sym leave-stored))

    leave-loads : (unmarshal_obj o.con_codec con.config_path (leave o con w).1).0 ≡ ok (stopped con)
    unfolding stored p kept_world
    leave-loads =
        let s = o.con_codec.marshal (stopped con) in
        ap (λ x. (unmarshal_obj o.con_codec con.config_path x.1).0) leave-stored
        ∙ (unmarshal-apart o.con_codec con.config_path (info_of (sys_dir dir)) _ kept_world
              kept-IsApart
            ∙ unmarshal_obj-marshal o.con_codec con.config_path (stopped con) kept_world
                (file_exist-write_file w p s own.can_write)
                (read_file-write_file w p s own.can_read))

-- Run, however its body ends, and where the body leaves a registry and a file for the container that
-- can be written: its result is that of the body, the registry then lists the container and all that
-- it listed, and the file holds the container as the body left it, with the pid -1.
pub run_from_leaves :
    (o : Outside) (con0 : Container) (passive : Bool) (env : Dict Bytes) (args : List Bytes)
    (w0 : World) (r : Result (Unit {0})) (con : Container) (w : World)
    → run_body o passive env args con0 w0 ≡ (r, con, w)
    → (dir : Bytes) (sys : Sys) → IsRegistry o.host o.sys_codec dir sys w
    → IsOwn o.host dir con.config_path w
    → (m : Dict Scalar) → entry_for (stopped con) (lookup con.id sys.containers) ≡ ok m
    → ((run_from o con0 passive env args w0).0 ≡ r)
      × ((sys' : Sys) × IsRegistry o.host o.sys_codec dir sys'
            (run_from o con0 passive env args w0).1
          × ((k : Bytes)
              → lookup k sys'.containers
                ≡ (if eqb con.id k then some (fields m) else lookup k sys.containers)))
      × ((unmarshal_obj o.con_codec con.config_path (run_from o con0 passive env args w0).1).0
          ≡ ok (stopped con))
unfolding run_from
run_from_leaves o con0 passive env args w0 r con w b dir sys g own m e =
    rw b (refl, leave-IsRegistry o dir sys w g con own m e, leave-loads o dir sys w g con own m e)
