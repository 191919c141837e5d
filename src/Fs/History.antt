-- ===== src/Fs/History.antt =====
-- Histories of calls of Project5/fs.c on a mounted file system: every call of fs.h but `make_fs`,
-- `mount_fs` and `umount_fs`, each with its result.
use ec440_projects.Prelude.{ℕ, ◌≡◌, sym, ap, subst, ◌∙◌, some, List, [], ℤ, pos, CString}
use ec440_projects.Run.{
  Run, done, Keeps, kept, Keeps-done, Keeps-map, Keeps-then, ◌>>=◌, done_injective,
}
use ec440_projects.Disk.{Disk}
use ec440_projects.Fs.{Fs, SuperBlock}
use ec440_projects.Fs.Table.{
  fs_create, fs_open, fs_close, fs_delete, fs_lseek, fs_get_filesize, fs_listfiles,
}
use ec440_projects.Fs.Data.{Buffer, fs_read, fs_write}
use ec440_projects.Fs.Format.{make_fs, mount_fs}
use ec440_projects.Fs.Invariant.{IsConsistent}
use ec440_projects.Fs.Open.{fs_open-IsConsistent, fs_close-IsConsistent}
use ec440_projects.Fs.Preserve.{fs_create-IsConsistent}
use ec440_projects.Fs.Remove.{fs_delete-IsConsistent}
use ec440_projects.Fs.Offsets.{Fits}
use ec440_projects.Fs.Transfer.{
  fs_write-IsConsistent, fs_read-Fits, fs_lseek-Fits, fs_get_filesize-Fits,
}
use ec440_projects.Fs.Truncate.{fs_truncate}
use ec440_projects.Fs.Shortened.{fs_truncate-IsConsistent}
use ec440_projects.Fs.Mount.{IsHarmless}
use ec440_projects.Fs.Making.{CanMake}
use ec440_projects.Fs.Fresh.{make_fs-mount_fs}

pub data Call : Type 0 where
  list : Call
  create remove open_name : CString → Call
  close_descriptor filesize : ℤ → Call
  seek : ℤ → ℤ → Call
  shorten : Buffer → Buffer → ℤ → ℤ → Call
  write_bytes read_bytes : Buffer → ℤ → Buffer → ℕ → Call

abbrev after_read : Run (ℤ × Buffer × Fs) → Run (ℤ × Fs)
after_read r = r >>= λ (n, buf, s). done (n, s)

-- The function that a call runs.
abbrev pub call : Call → Fs → Run (ℤ × Fs)
call (create name) s = fs_create name s
call (remove name) s = fs_delete name s
call (open_name name) s = fs_open name s
call (close_descriptor f) s = fs_close f s
call list s = let (r, names) = fs_listfiles s in done (r, s)
call (filesize f) s = fs_get_filesize f s
call (shorten uninit blank f size) s = fs_truncate uninit blank f size s
call (seek f offset) s = fs_lseek f offset s
call (write_bytes uninit f buf n) s = fs_write uninit f buf n s
call (read_bytes uninit f buf n) s = after_read (fs_read uninit f buf n s)

-- The calls that lead from one state to another, whatever each of them returned.
pub data History (s : Fs) : Fs → Type 0 where
  begin : History s s
  then_call :
      {s' s'' : Fs} (c : Call) (r : ℤ) → History s s' → call c s' ≡ done (r, s'') → History s s''

call-Fits : (c : Call) (s : Fs) → Fits s → Keeps (λ r. Fits r.1) (call c s)
call-Fits (create name) s (chains, c) = fs_create-IsConsistent name s chains c
call-Fits (remove name) s (chains, c) =
    Keeps-map (λ a p. (chains, p)) (fs_delete-IsConsistent name s chains c)
call-Fits (open_name name) s (chains, c) =
    Keeps-map (λ a p. (chains, p)) (fs_open-IsConsistent name s chains c)
call-Fits (close_descriptor f) s (chains, c) =
    Keeps-map (λ a p. (chains, p)) (fs_close-IsConsistent f s chains c)
call-Fits list s c = kept c
call-Fits (filesize f) s c = fs_get_filesize-Fits f s c
call-Fits (shorten uninit blank f size) s (chains, c) =
    fs_truncate-IsConsistent uninit blank f size s chains c
call-Fits (seek f offset) s c = fs_lseek-Fits f offset s c
call-Fits (write_bytes uninit f buf n) s (chains, c) =
    fs_write-IsConsistent uninit f buf n s chains c
call-Fits (read_bytes uninit f buf n) s c =
    Keeps-then (fs_read uninit f buf n s) _ (fs_read-Fits uninit f buf n s c) λ r p. kept p

History-Fits : {s s' : Fs} → Fits s → History s s' → Fits s'
History-Fits c begin = c
History-Fits c (then_call k r h e) = Keeps-done (call-Fits k _ (History-Fits c h)) e

-- From `make_fs` and `mount_fs` on, on a host that can make the disk and where the writes of `mount_fs`
-- behind `fildes` do no harm, both calls return 0, and the tables fit together after every sequence of calls that return, whatever they return: the reference counts count the open
-- descriptors, and no block belongs to two files.
pub mount_fs-History-IsConsistent :
    (overrun : ℕ → Fs → Run Fs) (uninit uninit' pad : Buffer) (blank_super : SuperBlock)
    (name : CString) (s s' s'' : Fs) (r r' : ℤ) (d : Disk)
    → IsHarmless overrun
    → CanMake name s.disk
    → make_fs uninit pad (some name) s.disk ≡ (r, d)
    → mount_fs overrun uninit' blank_super (some name) (record s { disk = d }) ≡ done (r', s')
    → History s' s''
    → (r ≡ pos 0) × (r' ≡ pos 0) × (chains : ℕ → List ℕ) × IsConsistent s'' chains
mount_fs-History-IsConsistent overrun uninit uninit' pad blank_super name s s' s'' r r' d harmless
      can makes mounts h =
    let (d₀, s₀, makes₀, shut, mounts₀, fresh) =
      make_fs-mount_fs overrun uninit uninit' pad blank_super name s harmless can in
    let disk : d₀ ≡ d = ap (λ (x : ℤ × Disk). x.1) (sym makes₀ ∙ makes) in
    let result : (pos 0, s₀) ≡ (r', s') =
      done_injective (pos 0, s₀) (r', s')
        (sym mounts₀
          ∙ ap (λ x. mount_fs overrun uninit' blank_super (some name) (record s { disk = x })) disk
          ∙ mounts) in
    let fits =
      History-Fits (subst Fits (ap (λ (x : ℤ × Fs). x.1) result) ((λ i. []), fresh.consistent)) h in
    (
      ap (λ (x : ℤ × Disk). x.0) (sym makes ∙ makes₀),
      ap (λ (x : ℤ × Fs). x.0) (sym result),
      fits.0,
      fits.1,
    )
