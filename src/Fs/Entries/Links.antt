-- ===== src/Fs/Entries/Links.antt =====
-- The loop of FuseRmdir on the link count.
use veri_fs.Base.{ℕ, zero, suc, ◌^◌, ◌≡◌, ◌<◌, refl, true, arith}
use veri_fs.Types.{Inode}
use veri_fs.Inode.{has_no_links, decrement_link_count, num_links_positive}
use veri_fs.Fs.Entries.{drop_links}

decrement_link_count-st_nlink :
    (n : ℕ) (i : Inode) → i.st_nlink ≡ suc n → n < 2 ^ 31 → (decrement_link_count i).st_nlink ≡ n
unfolding decrement_link_count
decrement_link_count-st_nlink n i e h = omega arith

drop_links-st_nlink :
    (n : ℕ) (i : Inode) → i.st_nlink ≡ n → n < 2 ^ 31 → (drop_links n i).st_nlink ≡ 0
unfolding drop_links num_links_positive
drop_links-st_nlink zero i e h = e
drop_links-st_nlink (suc n) i e h = ground (
  arith,
  decrement_link_count-st_nlink n i e (omega arith),
  drop_links-st_nlink n (decrement_link_count i),
)

-- For an inode with fewer than 2 ^ 31 links, the loop of FuseRmdir ends within as many rounds as
-- there are links, and then the inode has none.
pub drop_links-has_no_links :
    (i : Inode) → i.st_nlink < 2 ^ 31 → has_no_links (drop_links i.st_nlink i) ≡ true
unfolding has_no_links
drop_links-has_no_links i h = ground (arith, drop_links-st_nlink i.st_nlink i refl h)
