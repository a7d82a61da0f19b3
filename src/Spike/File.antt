-- ===== src/Spike/File.antt =====
-- The file table of spike_interface/spike_file.c. A `spike_file_t *` is the index of its slot in
-- `spike_files`, and NULL is `none`. Host calls are answered by the host: what `frontend_syscall`
-- returns is an argument, the 64 bits of a `long`. `none` as an outcome is a NULL dereference, an
-- index out of bounds or a failed `kassert`.
pub mod Refs
pub mod Standard
pub mod Calls
use lq_os_lab.Base.{
  ℕ, zero, suc, ◌+◌, ◌-◌, ◌%◌, ◌^◌, Bool, true, false, Option, none, some, List, [], ◌∷◌, ltb, ◌==◌,
  if◌then◌else◌,
}
use lq_os_lab.Base.Memory.{u64_mod, u32_mod}

pub record SpikeFile : Type 0 where
  pub kfd : ℕ
  pub refcnt : ℕ

-- `spike_fds` and `spike_files`, and the host descriptors that were asked to be closed, the
-- latest first.
pub record Files : Type 0 where
  pub fds : ℕ → Option ℕ
  pub files : ℕ → SpikeFile
  pub closed : List ℕ

abbrev pub max_files : ℕ
max_files = 128

abbrev pub max_fds : ℕ
max_fds = 128

abbrev pub init_file_ref : ℕ
init_file_ref = 3

-- -1 as an `int`.
abbrev pub minus_one : ℕ
minus_one = u32_mod - 1

abbrev pub initial : Files
initial = record {
  fds = λ i. none;
  files = λ i. record { kfd = minus_one; refcnt = 0 };
  closed = [];
}

abbrev pub same_file : Option ℕ → Option ℕ → Bool
same_file none none = true
same_file none (some j) = false
same_file (some i) none = false
same_file (some i) (some j) = i == j

abbrev pub set_file : ℕ → SpikeFile → Files → Files
set_file f v s = record s { files = λ j. if j == f then v else s.files j }

abbrev pub set_fd : ℕ → Option ℕ → Files → Files
set_fd i v s = record s { fds = λ j. if j == i then v else s.fds j }

-- `atomic_add(&f->refcnt, inc)` on a `uint32`; the value from before is `(s.files f).refcnt`.
abbrev pub add_ref : ℕ → ℕ → Files → Files
add_ref f inc s =
    set_file f (record (s.files f) { refcnt = ((s.files f).refcnt + inc) % u32_mod }) s

unfoldable pub spike_file_decref : ℕ → Files → Files
spike_file_decref f s =
    if (s.files f).refcnt == 2
    then record (set_file f (record (s.files f) { refcnt = 0 }) s) {
      closed = (s.files f).kfd ∷ s.closed;
    }
    else add_ref f minus_one s

unfoldable pub spike_file_incref : ℕ → Files → Option Files
spike_file_incref f s = if (s.files f).refcnt == 0 then none else some (add_ref f 1 s)

-- The loop of `spike_file_get_free` from slot `f`, with `k` left.
unfoldable pub get_free_from : ℕ → ℕ → Files → Option ℕ
get_free_from zero f s = none
get_free_from (suc k) f s =
    let rest = get_free_from k (f + 1) s in if (s.files f).refcnt == 0 then some f else rest

-- The free slot takes `INIT_FILE_REF` references.
unfoldable pub spike_file_get_free : Files → Option ℕ × Files
spike_file_get_free s = elim (get_free_from max_files 0 s) [
  | none ↦ (none, s)
  | some f ↦ (some f, set_file f (record (s.files f) { refcnt = init_file_ref }) s)
]

-- The loop of `spike_file_dup` from descriptor `i`, with `k` left: the first free one.
unfoldable pub free_fd_from : ℕ → ℕ → Files → Option ℕ
free_fd_from zero i s = none
free_fd_from (suc k) i s =
    let rest = free_fd_from k (i + 1) s in if same_file (s.fds i) none then some i else rest

unfoldable pub spike_file_dup : ℕ → Files → Option (ℕ × Files)
spike_file_dup f s = elim (free_fd_from max_fds 0 s) [
  | none ↦ some (minus_one, s)
  | some i ↦ elim (spike_file_incref f (set_fd i (some f) s)) [
    | none ↦ none
    | some s' ↦ some (i, s')
  ]
]

-- One round of `spike_file_init`.
unfoldable pub init_one : ℕ → Files → Option Files
init_one i s =
    let (found, s') = spike_file_get_free s in
    elim found [
      | none ↦ none
      | some f ↦ elim (spike_file_dup f (set_file f (record (s'.files f) { kfd = i }) s')) [
        | none ↦ none
        | some (fd, s'') ↦ some s''
      ]
    ]

abbrev pub bind_files : Option Files → (Files → Option Files) → Option Files
bind_files none k = none
bind_files (some s) k = k s

unfoldable pub spike_file_init : Files → Option Files
spike_file_init s = bind_files (bind_files (init_one 0 s) (init_one 1)) (init_one 2)

-- What `spike_file_openat` returns: a file, or the error that `ERR_PTR` encodes.
pub data Opened : Type 0 where
  file : ℕ → Opened
  error : ℕ → Opened

abbrev pub enomem : ℕ
enomem = 12

-- `ret` is the host's answer to HTIFSYS_openat; it is negative from 2 ^ 63 on.
unfoldable pub spike_file_openat : ℕ → Files → Opened × Files
spike_file_openat ret s =
    let (found, s') = spike_file_get_free s in
    elim found [
      | none ↦ (error (u64_mod - enomem), s')
      | some f ↦
          if ltb ret (2 ^ 63)
          then (file f, set_file f (record (s'.files f) { kfd = ret % u32_mod }) s')
          else (error ret, spike_file_decref f s')
    ]

-- With AT_FDCWD as the directory, which the host reads.
unfoldable pub spike_file_open : ℕ → Files → Opened × Files
spike_file_open ret s = spike_file_openat ret s

-- `old = atomic_cas(&spike_fds[f->kfd], f, 0)`: a host descriptor indexes `spike_fds`.
unfoldable pub spike_file_close : Option ℕ → Files → Option (ℕ × Files)
spike_file_close none s = some (minus_one, s)
spike_file_close (some f) s =
    let i = (s.files f).kfd in
    let hit = same_file (s.fds i) (some f) in
    if ltb i max_fds
    then (if hit
        then some (0, spike_file_decref f (spike_file_decref f (set_fd i none s)))
        else some (minus_one, spike_file_decref f s))
    else none
