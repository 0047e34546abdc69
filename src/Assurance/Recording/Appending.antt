-- ===== src/Assurance/Recording/Appending.antt =====
-- A record is appended as a whole or not at all.
use nautilus_agents.Base.{
  ℕ, suc, ◌≡◌, refl, sym, ap, ◌∙◌, ◌≢◌, List, [], ◌∷◌, ◌++◌, arith, length, length-append, Option,
  none, some, Result, ok, err, list_eq, nat_eq,
}
use nautilus_agents.Assurance.Disk.{
  no_faults, OsName, utf8_name, other_name, FileKey, Files, Faults, Io, read_file, found_or_missing,
  create_new, contents, write_all, sync_all, rename_file,
}
use mathlib.Core.Path.{subst}
use nautilus_agents.Text.{Text, codes}
use nautilus_agents.Assurance.Disk.Triples.{
  AgreeBut, Ends, and_then_rule, Holds, create_new_rule, write_all_rule, sync_all_rule, Moved,
  rename_file_rule, remove_file_rule,
}
use nautilus_agents.Assurance.Recording.{
  PathBuf, path_key, to_str, temporary_key, write_temporary, clean_up, replace_named,
  existing_bytes, replace_read, replace_with_appended_record,
}

-- The closure moves the existing bytes and the line to the target, or leaves all but the temporary
-- file as it was.
write_temporary_rule :
    (f : Faults) (temporary target : FileKey) (existing line : List ℕ) (fs : Files)
    → temporary ≢ target
    → Ends
        (Moved temporary fs target (existing ++ line))
        (AgreeBut temporary fs)
        (write_temporary f temporary target existing line fs)
unfolding write_temporary
write_temporary_rule f temporary target existing line fs n =
    let R = AgreeBut temporary fs in
    let Q = Moved temporary fs target (existing ++ line) in
    and_then_rule (Holds temporary fs []) Q R _ _ (create_new_rule temporary fs f.open_new) λ g1 h1.
      and_then_rule (Holds temporary fs existing) Q R _ _
        (write_all_rule temporary fs f.write_existing [] existing g1 h1)
        λ g2 h2.
          and_then_rule (Holds temporary fs (existing ++ line)) Q R _ _
            (write_all_rule temporary fs f.write_line existing line g2 h2)
            λ g3 h3.
              and_then_rule (Holds temporary fs (existing ++ line)) Q R _ _
                (sync_all_rule temporary fs f.sync (existing ++ line) g3 h3)
                λ g4 h4. rename_file_rule temporary fs f.rename target (existing ++ line) g4 n h4

clean_up_rule :
    (f : Faults) (temporary : FileKey) (fs : Files) (Q : Files → Type 0) (x : Io)
    → Ends Q (AgreeBut temporary fs) x
    → Ends Q (AgreeBut temporary fs) (clean_up f temporary x)
unfolding clean_up
clean_up_rule f temporary fs Q (gs, ok _) h = h
clean_up_rule f temporary fs Q (gs, err e) h = remove_file_rule temporary fs f.remove gs h

-- The name of the temporary file is longer than the file's.
longer : (c : ℕ) (name rest : Text) → c ∷ (name ++ rest) ≢ name
longer c name rest e =
    let l : suc (length (name ++ rest)) ≡ length name = ap length e in
    let b = length-append name rest in omega arith

utf8_of_str : (o : Option OsName) (name : Text) → to_str o ≡ some name → o ≡ some (utf8_name name)
utf8_of_str none name h = cc
utf8_of_str (some (utf8_name t)) name h = cc
utf8_of_str (some (other_name t)) name h = cc

abbrev text_of : Option OsName → Text
text_of (some (utf8_name t)) = t
text_of _ = []

temporary_differs :
    (p : PathBuf) (name uuid : Text)
    → to_str p.file_name ≡ some name
    → temporary_key p name uuid ≢ path_key p
unfolding temporary_key
temporary_differs p name uuid h e =
    let named = utf8_of_str p.file_name name h in
    let same : some (utf8_name (codes "." ++ (name ++ (codes "." ++ (uuid ++ codes ".tmp")))))
        ≡ some (utf8_name name) =
      ap (λ (k : FileKey). k.name) e ∙ named in
    let texts : codes "." ++ (name ++ (codes "." ++ (uuid ++ codes ".tmp"))) ≡ name =
      ap text_of same in
    longer b'.' name (codes "." ++ (uuid ++ codes ".tmp")) texts

-- The file that a run on this path writes on the way.
pub record IsTemporary (p : PathBuf) (uuid : Text) (k : FileKey) : Type 0 where
  pub name : Text
  pub utf8 : to_str p.file_name ≡ some name
  pub key : k ≡ temporary_key p name uuid

abbrev pub OthersKept : PathBuf → Text → Files → Files → Type 0
OthersKept p uuid fs gs = (k : FileKey) → k ≢ path_key p → ¬ IsTemporary p uuid k → gs k ≡ fs k

-- The target holds what it held and the line behind it; no other file but the temporary one changed.
abbrev pub Appended : PathBuf → Text → List ℕ → Files → Files → Type 0
Appended p uuid line fs gs =
    (gs (path_key p) ≡ some (contents (fs (path_key p)) ++ line)) × OthersKept p uuid fs gs

-- No file but the temporary one changed, so the target did not.
abbrev pub Untouched : PathBuf → Text → Files → Files → Type 0
Untouched p uuid fs gs = (gs (path_key p) ≡ fs (path_key p)) × OthersKept p uuid fs gs

pub nothing_done : (p : PathBuf) (uuid : Text) (fs : Files) → Untouched p uuid fs fs
nothing_done p uuid fs = (refl, λ k n t. refl)

pub weaken-Ends :
    {E : Type 0} (P Q R S : Files → Type 0) (x : Files × Result (Unit {0}) E)
    → ((gs : Files) → P gs → Q gs)
    → ((gs : Files) → R gs → S gs)
    → Ends P R x
    → Ends Q S x
weaken-Ends P Q R S (gs, ok _) f g h = f gs h
weaken-Ends P Q R S (gs, err e) f g h = g gs h

replace_named_rule :
    (f : Faults) (uuid : Text) (p : PathBuf) (o : Option Text) (line : List ℕ) (fs : Files)
    → to_str p.file_name ≡ o
    → Ends
        (Appended p uuid line fs)
        (Untouched p uuid fs)
        (replace_named f uuid p o (contents (fs (path_key p))) line fs)
unfolding replace_named
replace_named_rule f uuid p none line fs h = nothing_done p uuid fs
replace_named_rule f uuid p (some name) line fs h =
    let t = temporary_key p name uuid in
    let n = temporary_differs p name uuid h in
    let existing = contents (fs (path_key p)) in
    weaken-Ends (Moved t fs (path_key p) (existing ++ line)) (Appended p uuid line fs)
      (AgreeBut t fs) (Untouched p uuid fs)
      (clean_up f t (write_temporary f t (path_key p) existing line fs))
      (λ gs (a, b, c). (a, λ k x y. c k x (λ e. y (record { name = name; utf8 = h; key = e }))))
      (λ gs a. (
        a (path_key p) (λ e. n (sym e)),
        λ k x y. a k (λ e. y (record { name = name; utf8 = h; key = e })),
      ))
      (clean_up_rule f t fs (Moved t fs (path_key p) (existing ++ line)) _
        (write_temporary_rule f t (path_key p) existing line fs n))

-- An absent file counts as an empty one, and any other failure to read is reported.
existing_found : (o : Option (List ℕ)) → existing_bytes (found_or_missing o) ≡ ok (contents o)
unfolding existing_bytes
existing_found none = refl
existing_found (some bytes) = refl

replace_read_rule :
    (f : Faults) (uuid : Text) (p : PathBuf) (line : List ℕ) (fs : Files) (r : Option (ℕ × Text))
    → Ends
        (Appended p uuid line fs)
        (Untouched p uuid fs)
        (replace_read f uuid p (existing_bytes (read_file r (path_key p) fs)) line fs)
unfolding existing_bytes read_file
replace_read_rule f uuid p line fs (some (n, m)) = nothing_done p uuid fs
replace_read_rule f uuid p line fs none =
    subst
      (λ r. Ends (Appended p uuid line fs) (Untouched p uuid fs) (replace_read f uuid p r line fs))
      (sym (existing_found (fs (path_key p))))
      (replace_named_rule f uuid p (to_str p.file_name) line fs refl)

-- Whatever fails, the record is appended as a whole or not at all: a success leaves the target with
-- the line behind what it held, an absent target counting as empty; an error leaves the target as it
-- was; and no other file but the temporary one changes.
pub replace-atomic :
    (f : Faults) (uuid : Text) (p : PathBuf) (line : List ℕ) (fs : Files)
    → Ends
        (Appended p uuid line fs)
        (Untouched p uuid fs)
        (replace_with_appended_record f uuid p line fs)
unfolding replace_with_appended_record
replace-atomic f uuid p line fs = replace_read_rule f uuid p line fs f.read

write_temporary_ok :
    (temporary target : FileKey) (existing line : List ℕ) (fs : Files)
    → fs temporary ≡ none
    → (write_temporary no_faults temporary target existing line fs).1 ≡ ok tt
unfolding write_temporary create_new write_all sync_all rename_file
write_temporary_ok temporary target existing line fs e = rw e refl

clean_up_ok :
    (f : Faults) (temporary : FileKey) (x : Io)
    → x.1 ≡ ok tt
    → clean_up f temporary x ≡ (x.0, ok tt)
unfolding clean_up
clean_up_ok f temporary (gs, ok _) h = refl
clean_up_ok f temporary (gs, err e) h = absurd cc

Ends-ok :
    {E : Type 0} (Q R : Files → Type 0) (x : Files × Result (Unit {0}) E)
    → x.1 ≡ ok tt
    → Ends Q R x
    → Q x.0
Ends-ok Q R (gs, ok _) h q = q
Ends-ok Q R (gs, err e) h q = absurd cc

-- Without failures, and when no file has the name of the temporary one, a record is appended to a path
-- with a UTF-8 file name: the call succeeds, the target holds what it held and the line behind it, no
-- file has the temporary name, and every other file is as it was.
pub replace-ok :
    (uuid : Text) (p : PathBuf) (name : Text) (line : List ℕ) (fs : Files)
    → to_str p.file_name ≡ some name
    → fs (temporary_key p name uuid) ≡ none
    → let done = replace_with_appended_record no_faults uuid p line fs in
      (done.1 ≡ ok tt)
      × (done.0 (path_key p) ≡ some (contents (fs (path_key p)) ++ line))
      × (done.0 (temporary_key p name uuid) ≡ none)
      × ((k : FileKey) → k ≢ path_key p → k ≢ temporary_key p name uuid → done.0 k ≡ fs k)
unfolding replace_with_appended_record replace_named read_file existing_bytes
replace-ok uuid p name line fs h e =
    let t = temporary_key p name uuid in
    let existing = contents (fs (path_key p)) in
    let x = write_temporary no_faults t (path_key p) existing line fs in
    let wrote = write_temporary_ok t (path_key p) existing line fs e in
    let (target_holds, temporary_gone, others_kept) =
      Ends-ok (Moved t fs (path_key p) (existing ++ line)) (AgreeBut t fs) x wrote (
        write_temporary_rule no_faults t (path_key p) existing line fs
          (temporary_differs p name uuid h)) in
    rw (existing_found (fs (path_key p)), h, clean_up_ok no_faults t x wrote)
      (refl, target_holds, temporary_gone, others_kept)
