-- ===== src/Delta/RoundTrip.antt =====
-- Applying a diff gives the new value.
use sodp.Base.{String, ◌≡◌, refl, ap, ◌∙◌, List, [], ◌∷◌, ◌++◌, All, All-append}
use sodp.Json.{Value, Fields, end, field, null, bool, num, str, arr, obj, get, insert, WellFormed}
use sodp.Json.Map.{insert-IsSorted, get-WellFormed, insert-WellFormed}
use sodp.Paths.{set_in_recursive}
use sodp.Delta.{join_path, removed_keys, diff_at, diff_fields, diff, field_ops}
use sodp.Delta.Segments.{IsSafeKey, path_of, join_path-path_of}
use sodp.Delta.Apply.{apply_ops, apply_ops-append, SafeKeys, SafeFields}
use sodp.Delta.Overlay.{overlay, prune-overlay, overlay-WellFormed}
use sodp.Delta.FieldOps.{
  at, at-WellFormed, field_ops-apply, removed_keys-apply, replaced-apply, Untouched,
  Untouched-insert, contains_key_head, get-SafeKeys,
}

mutual
  unfolding diff_at SafeKeys WellFormed at overlay apply_ops

  diff_at-apply :
      (r ov nv : Value) (p : List String)
      → WellFormed r
      → WellFormed ov
      → WellFormed nv
      → All IsSafeKey p
      → SafeKeys ov
      → SafeKeys nv
      → apply_ops (set_in_recursive r p ov) (diff_at (path_of p) ov nv) ≡ set_in_recursive r p nv
  diff_at-apply r ov null p wr wo wn safe so sn = replaced-apply r ov null p wr wo safe
  diff_at-apply r ov (bool b) p wr wo wn safe so sn = replaced-apply r ov (bool b) p wr wo safe
  diff_at-apply r ov (num n) p wr wo wn safe so sn = replaced-apply r ov (num n) p wr wo safe
  diff_at-apply r ov (str s) p wr wo wn safe so sn = replaced-apply r ov (str s) p wr wo safe
  diff_at-apply r ov (arr xs) p wr wo wn safe so sn = replaced-apply r ov (arr xs) p wr wo safe
  diff_at-apply r (obj o) (obj n) p wr wo wn safe so sn =
      apply_ops-append (at r p o) (diff_fields (path_of p) o n) (removed_keys (path_of p) n o)
      ∙ (ap (λ z. apply_ops z (removed_keys (path_of p) n o))
            (diff_fields-apply r o o n p wr wo wo wn safe so sn (λ j e. refl))
          ∙ (removed_keys-apply r p n o (overlay o n) wr (overlay-WellFormed o n wo wn) safe so
              ∙ ap (at r p) (prune-overlay o n wo.0 wn.0)))
  diff_at-apply r null (obj n) p wr wo wn safe so sn = replaced-apply r null (obj n) p wr wo safe
  diff_at-apply r (bool b) (obj n) p wr wo wn safe so sn =
      replaced-apply r (bool b) (obj n) p wr wo safe
  diff_at-apply r (num x) (obj n) p wr wo wn safe so sn =
      replaced-apply r (num x) (obj n) p wr wo safe
  diff_at-apply r (str s) (obj n) p wr wo wn safe so sn =
      replaced-apply r (str s) (obj n) p wr wo safe
  diff_at-apply r (arr xs) (obj n) p wr wo wn safe so sn =
      replaced-apply r (arr xs) (obj n) p wr wo safe

  diff_fields-apply :
      (r : Value) (o m n : Fields) (p : List String)
      → WellFormed r
      → WellFormed (obj o)
      → WellFormed (obj m)
      → WellFormed (obj n)
      → All IsSafeKey p
      → SafeFields o
      → SafeFields n
      → Untouched n o m
      → apply_ops (at r p m) (diff_fields (path_of p) o n) ≡ at r p (overlay m n)
  diff_fields-apply r o m end p wr wo wm wn safe so sn h = refl
  diff_fields-apply r o m (field k v n) p wr wo wm wn safe so sn h =
      let child = join_path (path_of p) k in
      let m' = insert m k v in
      let wa = at-WellFormed r p m wr wm in
      let deeper = All-append IsSafeKey p (k ∷ []) safe (sn.0, tt) in
      let ops = field_ops (λ old. diff_at child old v) child (get o k) v in
      let one =
        field_ops-apply r p m k wr wm safe sn.0 (λ old. diff_at child old v) (get o k) v
          (h k (contains_key_head k v n))
          (λ w e. rw (join_path-path_of p k safe) (
            diff_at-apply (at r p m) w v (p ++ k ∷ []) wa (get-WellFormed o k w wo.1 e) wn.1.0
              deeper (get-SafeKeys o k w so e) sn.1)) in
      apply_ops-append (at r p m) ops (diff_fields (path_of p) o n)
      ∙ (ap (λ z. apply_ops z (diff_fields (path_of p) o n)) one
          ∙ diff_fields-apply r o m' n p wr wo
              (insert-IsSorted m k v wm.0, insert-WellFormed m k v wm.1 wn.1.0) (wn.0.1, wn.1.1)
              safe so sn.2 (Untouched-insert k v n o m wn.0 h))

-- For well-formed values whose object keys are neither empty nor contain a slash, applying the ops of
-- `diff old new` to `old`, one after the other by the server's path functions, gives exactly `new`.
pub diff-apply :
    (old new : Value)
    → WellFormed old
    → WellFormed new
    → SafeKeys old
    → SafeKeys new
    → apply_ops old (diff old new) ≡ new
unfolding diff path_of set_in_recursive
diff-apply old new wo wn so sn = diff_at-apply null old new [] wo' wo wn tt so sn
  where
    wo' : WellFormed null
    wo' = unfold WellFormed in tt
