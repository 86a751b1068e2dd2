-- ===== src/Ffs/Bitmask/Inodes.antt =====
-- Taking a block leaves the inodes.
use system_sw.Prelude.{ℕ, ◌≡◌, ◌∙◌, refl, Option, none, some}
use system_sw.Ffs.{Fs}
use system_sw.Ffs.Bitmask.{first_clear, take_block, get_empty_block, write_b_bitmask}

-- the two states have the same inodes
pub record SameInodes (fs fs' : Fs) : Type 0 where
  pub store : fs'.inode ≡ fs.inode
  pub list : fs'.inodes ≡ fs.inodes
  pub fresh : fs'.fresh ≡ fs.fresh

pub SameInodes_refl : (fs : Fs) → SameInodes fs fs
SameInodes_refl fs = record { store = refl; list = refl; fresh = refl }

pub SameInodes_trans : {a b c : Fs} → SameInodes a b → SameInodes b c → SameInodes a c
SameInodes_trans p q = record {
  store = q.store ∙ p.store;
  list = q.list ∙ p.list;
  fresh = q.fresh ∙ p.fresh;
}

take_block-SameInodes : (fs : Fs) (i : Option ℕ) → SameInodes fs (take_block fs i).1
unfolding take_block write_b_bitmask
take_block-SameInodes fs none = SameInodes_refl fs
take_block-SameInodes fs (some i) = record { store = refl; list = refl; fresh = refl }

pub get_empty_block-SameInodes : (fs : Fs) → SameInodes fs (get_empty_block fs).1
unfolding get_empty_block
get_empty_block-SameInodes fs =
    take_block-SameInodes fs (first_clear fs.sbi.b_bitmask 0 fs.sbi.block_count)
