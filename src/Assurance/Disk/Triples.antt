-- ===== src/Assurance/Disk/Triples.antt =====
-- What each call on the files leaves behind, as pre- and postconditions.
use nautilus_agents.Base.{
  ℕ, ◌≡◌, refl, ap, ◌∙◌, ◌≢◌, ◌↔◌, inl, inr, true, List, [], ◌++◌, arith, Option, none, some,
  Result, ok, err, list_eq, nat_eq, list_beq_iff, Bool-cases,
}
use nautilus_agents.Assurance.Disk.{
  IoError, OsName, utf8_name, other_name, os_name_beq, name_beq, FileKey, key_beq, Files, set_file,
  Io, create_absent, create_new, contents, write_all, sync_all, rename_file, remove_file, and_then,
}

os_name_beq_iff : (a b : OsName) → (os_name_beq a b ≡ true) ↔ (a ≡ b)
unfolding os_name_beq
os_name_beq_iff (utf8_name a) (utf8_name b) = ground (arith, list_beq_iff a b)
os_name_beq_iff (other_name a) (other_name b) = ground (arith, list_beq_iff a b)
os_name_beq_iff (utf8_name a) (other_name b) = (λ h. cc, λ h. cc)
os_name_beq_iff (other_name a) (utf8_name b) = (λ h. cc, λ h. cc)

name_beq_iff : (a b : Option OsName) → (name_beq a b ≡ true) ↔ (a ≡ b)
name_beq_iff none none = (λ _. refl, λ _. refl)
name_beq_iff (some a) (some b) = ground (arith, os_name_beq_iff a b)
name_beq_iff none (some b) = (λ h. cc, λ h. cc)
name_beq_iff (some a) none = (λ h. cc, λ h. cc)

pub key_beq_iff : (a b : FileKey) → (key_beq a b ≡ true) ↔ (a ≡ b)
unfolding key_beq
key_beq_iff a b = ground (arith, list_beq_iff a.directory b.directory, name_beq_iff a.name b.name)

pub set_file-same : (k : FileKey) (v : Option (List ℕ)) (fs : Files) → set_file k v fs k ≡ v
unfolding set_file
set_file-same k v fs = let h = (key_beq_iff k k).1 refl in rw h refl

pub set_file-other :
    (j k : FileKey) (v : Option (List ℕ)) (fs : Files) → j ≢ k → set_file k v fs j ≡ fs j
unfolding set_file
set_file-other j k v fs h = elim (Bool-cases (key_beq j k)) [
  | inl e ↦ absurd (h ((key_beq_iff j k).0 e))
  | inr e ↦ rw e refl
]

-- Of two states of the files, that they agree but at one file.
abbrev pub AgreeBut : FileKey → Files → Files → Type 0
AgreeBut k fs gs = (j : FileKey) → j ≢ k → gs j ≡ fs j

-- What holds of the files behind a success, and behind a failure.
abbrev pub Ends :
    {E : Type 0} → (Files → Type 0) → (Files → Type 0) → Files × Result (Unit {0}) E → Type 0
Ends Q R (fs, ok _) = Q fs
Ends Q R (fs, err _) = R fs

pub and_then_rule :
    (P Q R : Files → Type 0) (x : Io) (next : Files → Io)
    → Ends P R x
    → ((gs : Files) → P gs → Ends Q R (next gs))
    → Ends Q R (and_then x next)
and_then_rule P Q R (fs, ok _) next h k = k fs h
and_then_rule P Q R (fs, err e) next h k = h

module _ (k : FileKey) (fs : Files) where
  -- Nothing else changed, and the file holds these bytes.
  abbrev pub Holds : List ℕ → Files → Type 0
  Holds bytes gs = AgreeBut k fs gs × (gs k ≡ some bytes)

  pub set_file-AgreeBut :
      (v : Option (List ℕ)) (gs : Files) → AgreeBut k fs gs → AgreeBut k fs (set_file k v gs)
  set_file-AgreeBut v gs h j n = set_file-other j k v gs n ∙ h j n

  create_absent_rule :
      (o : Option (List ℕ)) → Ends (Holds []) (AgreeBut k fs) (create_absent o k fs)
  create_absent_rule none =
      (set_file-AgreeBut (some []) fs (λ j n. refl), set_file-same k (some []) fs)
  create_absent_rule (some bytes) = λ j n. refl

  pub create_new_rule : (f : Option IoError) → Ends (Holds []) (AgreeBut k fs) (create_new f k fs)
  unfolding create_new
  create_new_rule (some e) = λ j n. refl
  create_new_rule none = create_absent_rule (fs k)

  pub write_all_rule :
      (f : Option (ℕ × IoError)) (old bytes : List ℕ) (gs : Files)
      → Holds old gs
      → Ends (Holds (old ++ bytes)) (AgreeBut k fs) (write_all f k bytes gs)
  unfolding write_all
  write_all_rule (some (n, e)) old bytes gs (h, c) = set_file-AgreeBut _ gs h
  write_all_rule none old bytes gs (h, c) = (
    set_file-AgreeBut _ gs h,
    set_file-same k (some (contents (gs k) ++ bytes)) gs ∙ ap (λ v. some (contents v ++ bytes)) c,
  )

  pub sync_all_rule :
      (f : Option IoError) (old : List ℕ) (gs : Files)
      → Holds old gs
      → Ends (Holds old) (AgreeBut k fs) (sync_all f gs)
  unfolding sync_all
  sync_all_rule (some e) old gs (h, c) = h
  sync_all_rule none old gs h = h

  -- The move leaves the bytes in the target, and no file at its source.
  abbrev pub Moved : FileKey → List ℕ → Files → Type 0
  Moved target bytes gs =
      (gs target ≡ some bytes) × (gs k ≡ none) × ((j : FileKey) → j ≢ target → j ≢ k → gs j ≡ fs j)

  pub rename_file_rule :
      (f : Option IoError) (target : FileKey) (bytes : List ℕ) (gs : Files)
      → k ≢ target
      → Holds bytes gs
      → Ends (Moved target bytes) (AgreeBut k fs) (rename_file f k target gs)
  unfolding rename_file
  rename_file_rule (some e) target bytes gs n (h, c) = h
  rename_file_rule none target bytes gs n (h, c) = (
    set_file-same target (gs k) (set_file k none gs) ∙ c,
    set_file-other k target (gs k) (set_file k none gs) n ∙ set_file-same k none gs,
    λ j a b.
        set_file-other j target (gs k) (set_file k none gs) a
        ∙ set_file-other j k none gs b
        ∙ h j b,
  )

  pub remove_file_rule :
      (f : Option IoError) (gs : Files) → AgreeBut k fs gs → AgreeBut k fs (remove_file f k gs)
  unfolding remove_file
  remove_file_rule (some e) gs h = h
  remove_file_rule none gs h = set_file-AgreeBut none gs h
