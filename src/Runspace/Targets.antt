-- ===== src/Runspace/Targets.antt =====
-- The targets that `parseDiffTargets` of internal/runspace/patcher.go finds are all that a diff names.
use mathlib.Core.List.{Memᴰ}
use semdev.Base.{
  ◌≡◌, ◌⊎◌, refl, sym, ap, ◌∙◌, subst, inl, inr, true, false, ◌||◌, List, [], ◌∷◌, if◌then◌else◌,
  Text, split, All, ok, >>=-eq-ok, ok-injective, Bool-cases,
}
use semdev.Runspace.Diffs.{
  Blocks, is_block, is_unsupported_diff_header, header_path, flush_block, diff_line, diff_lines,
  no_blocks, parse_diff_targets,
}
use semdev.Runspace.Named.{
  Names, Covered, has_header, header_ahead, Filled, Served, Among, Took, take_header-Took,
}

Names-Among : (ts us : List Text) (path : Text) → Among ts us → Names ts path → Names us path
Names-Among ts us path up (inl h) = inl h
Names-Among ts us path up (inr (dir, rel, is, lacks, m)) = inr (dir, rel, is, lacks, up rel m)

-- What the rest of the lines of a diff tells.
record Read (b : Blocks) (lines : List Text) (ts : List Text) : Type 0 where
  grown : Among b.targets ts
  covered : All (Covered ts) lines
  filled : Filled lines
  served : Served b lines

flush_block-Served :
    (b : Blocks) {done : Unit {0}}
    → flush_block b ≡ ok done
    → b.in_git_block ≡ true
    → b.block_has_content ≡ false
    → false ≡ true
flush_block-Served b h k l = cc (rw (k, l) at h)

-- A line that opens a block.
block-Read :
    (b : Blocks) (l : Text) (ls ts : List Text)
    → is_block l ≡ true
    → (b.in_git_block ≡ true → b.block_has_content ≡ false → false ≡ true)
    → Read (record b { in_git_block = true; block_has_content = false }) ls ts
    → Read b (l ∷ ls) ts
block-Read b l ls ts e flushed r = record {
  grown = r.grown;
  covered = (inl e, r.covered);
  filled = (λ _. r.served refl refl, r.filled);
  served = λ k m. absurd_of (flushed k m);
}
  where
    absurd_of : false ≡ true → header_ahead (l ∷ ls) ≡ true
    absurd_of h = cc

-- A line of a block.
line-Read :
    (b b' : Blocks) (l : Text) (ls ts : List Text)
    → is_block l ≡ false
    → is_unsupported_diff_header l ≡ false
    → Took b b' l
    → Read b' ls ts
    → Read b (l ∷ ls) ts
line-Read b b' l ls ts e plain t r = record {
  grown = λ x m. r.grown x (t.grown x m);
  covered = (
    inr (plain, λ raw k. Names-Among b'.targets ts (header_path raw) r.grown (t.names raw k)),
    r.covered,
  );
  filled = (λ k. cc (e, k), r.filled);
  served = λ k m. rw e (ahead k m (Bool-cases (has_header l)));
}
  where
    ahead :
        b.in_git_block ≡ true
        → b.block_has_content ≡ false
        → (has_header l ≡ true) ⊎ (has_header l ≡ false)
        → (has_header l || header_ahead ls) ≡ true
    ahead k m (inl h) = ap (λ x. x || header_ahead ls) h
    ahead k m (inr h) =
        ap (λ x. x || header_ahead ls) h
        ∙ r.served (t.same_block ∙ k)
            (t.content ∙ ap (λ x. if x then true else b.block_has_content) h ∙ m)

diff_line-Read :
    (b : Blocks) (l : Text) (ls ts : List Text) {next : Blocks}
    → diff_line b l ≡ ok next
    → Read next ls ts
    → Read b (l ∷ ls) ts
unfolding diff_line
diff_line-Read b l ls ts {next} h r = elim (Bool-cases (is_block l)) [
  | inl e ↦
      let opened = record b { in_git_block = true; block_has_content = false } in
      let (done, flushed, k) = >>=-eq-ok (flush_block b) (λ done. ok opened) (rw e at h) in
      block-Read b l ls ts e (flush_block-Served b flushed)
        (subst (λ x. Read x ls ts) (sym (ok-injective k)) r)
  | inr e ↦ elim (Bool-cases (is_unsupported_diff_header l)) [
    | inl bad ↦ cc (rw (e, bad) at h)
    | inr plain ↦ line-Read b next l ls ts e plain (take_header-Took b l (rw (e, plain) at h)) r
  ]
]

diff_lines-Read :
    (b : Blocks) (lines : List Text) {b' : Blocks}
    → diff_lines b lines ≡ ok b'
    → Read b lines b'.targets
unfolding diff_lines
diff_lines-Read b [] {b'} h =
    let (done, flushed, k) = >>=-eq-ok (flush_block b) (λ done. ok b) h in
    record {
      grown = λ t m. subst (λ x. Memᴰ t x.targets) (ok-injective k) m;
      covered = tt;
      filled = tt;
      served = λ i c. flush_block-Served b flushed i c;
    }
diff_lines-Read b (l ∷ ls) {b'} h =
    let (next, is, k) = >>=-eq-ok (diff_line b l) (λ b'. diff_lines b' ls) h in
    let r = diff_lines-Read next ls k in diff_line-Read b l ls b'.targets is r

-- What the targets of a diff are known for.
pub record AllNamed (diff : Text) (ts : List Text) : Type 0 where
  pub covered : All (Covered ts) (split 10 diff)
  pub filled : Filled (split 10 diff)

-- Where parseDiffTargets gives targets, each line of the diff opens a block, or is no header of a
-- rename, a copy, a symlink or a binary patch, and if it is a file header it names no file, or one
-- of the targets behind its first slash; and each block has a file header before the next one.
pub parse_diff_targets-AllNamed :
    (diff : Text) {ts : List Text} → parse_diff_targets diff ≡ ok ts → AllNamed diff ts
unfolding parse_diff_targets
parse_diff_targets-AllNamed diff h =
    let (b, is, k) = >>=-eq-ok (diff_lines no_blocks (split 10 diff)) (λ b. ok b.targets) h in
    let r = diff_lines-Read no_blocks (split 10 diff) is in
    subst (AllNamed diff) (ok-injective k) (record { covered = r.covered; filled = r.filled })
