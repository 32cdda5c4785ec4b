-- ===== src/Overlays/Stopping.antt =====
-- Where the loading of overlays stops.
use kuksa_val.Database.Metadata.{update_json_tree-err}
use kuksa_val.Database.Nodes.{Database}
use kuksa_val.Exception.{Exception, Result, ok, err, ok-ne-err, err-injective}
use kuksa_val.External.{Jsoncons}
use kuksa_val.Json.{Json}
use kuksa_val.Overlays.{
  OverlayFile, mock_channel, error_loading, overlay_update, overlay_next, apply_overlays,
}
use kuksa_val.Prelude.{◌≡◌, refl, sym, ap, ◌∙◌, List, [], ◌∷◌, ◌++◌}

module _ ⦃J : Jsoncons⦄ where
  -- The overlays before the one that fails have been applied, that one has left the data tree as
  -- it was, and none after it has been tried.
  pub record IsStopped (files : List OverlayFile) (db db' : Database) (e : Exception) : Type 0 where
    pub before : List OverlayFile
    pub failing : OverlayFile
    pub after : List OverlayFile
    pub split : files ≡ before ++ failing ∷ after
    pub reached : Database
    pub applied : apply_overlays before db ≡ (ok tt, reached)
    pub cause : Exception
    pub thrown : overlay_update reached failing.content ≡ (err cause, db')
    pub reported : e ≡ error_loading failing cause
    pub kept : db'.data_tree ≡ reached.data_tree

  overlay_update-err :
      (db : Database) (r : Result Json) (e : Exception)
      → (overlay_update db r).0 ≡ err e
      → (overlay_update db r).1.data_tree ≡ db.data_tree
  overlay_update-err db (err d) e h = refl
  overlay_update-err db (ok overlay) e h = update_json_tree-err mock_channel overlay db e h

  overlay_next-IsStopped :
      (p : OverlayFile) (files : List OverlayFile) (db db' : Database) (e : Exception)
      (r : Result (Unit {0}) × Database)
      → overlay_update db p.content ≡ r
      → ((db₁ : Database) → apply_overlays files db₁ ≡ (err e, db') → IsStopped files db₁ db' e)
      → overlay_next p (apply_overlays files) r ≡ (err e, db')
      → IsStopped (p ∷ files) db db' e
  unfolding apply_overlays
  overlay_next-IsStopped p files db db' e (err cause, db₁) u later h =
      let same = ap (λ (x : Result (Unit {0}) × Database). x.1) h in
      record {
        before = [];
        failing = p;
        after = files;
        split = refl;
        reached = db;
        applied = refl;
        cause = cause;
        thrown = u ∙ ap (λ d. (err cause, d)) same;
        reported = sym (err-injective (ap (λ (x : Result (Unit {0}) × Database). x.0) h));
        kept =
            ap (λ (d : Database). d.data_tree) (sym same)
            ∙ ap (λ (x : Result (Unit {0}) × Database). x.1.data_tree) (sym u)
            ∙ overlay_update-err db p.content cause
                (ap (λ (x : Result (Unit {0}) × Database). x.0) u);
      }
  overlay_next-IsStopped p files db db' e (ok tt, db₁) u later h =
      let s = later db₁ h in
      record {
        before = p ∷ s.before;
        failing = s.failing;
        after = s.after;
        split = ap (λ fs. p ∷ fs) s.split;
        reached = s.reached;
        applied = ap (overlay_next p (apply_overlays s.before)) u ∙ s.applied;
        cause = s.cause;
        thrown = s.thrown;
        reported = s.reported;
        kept = s.kept;
      }

  -- If the loading of overlays ends with an exception, the overlays before some file have been
  -- applied, that file has thrown and left the data tree as the ones before it made it, and no
  -- file after it has been tried.
  pub apply_overlays-IsStopped :
      (files : List OverlayFile) (db db' : Database) (e : Exception)
      → apply_overlays files db ≡ (err e, db')
      → IsStopped files db db' e
  unfolding apply_overlays
  apply_overlays-IsStopped [] db db' e h =
      absurd (ok-ne-err (ap (λ (x : Result (Unit {0}) × Database). x.0) h))
  apply_overlays-IsStopped (p ∷ files) db db' e h =
      overlay_next-IsStopped p files db db' e (overlay_update db p.content) refl
        (λ db₁ q. apply_overlays-IsStopped files db₁ db' e q) h
