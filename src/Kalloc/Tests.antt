-- ===== src/Kalloc/Tests.antt =====
-- A concrete run of kalloc.c: the kernel ends at 0x80108000 and frees a page.
use test_ascii.Common.{ℕ, ◌≡◌, ◌≢◌, ◌⊎◌, refl, arith, true, false}
use test_ascii.Common.Arrays.{update}
use test_ascii.Kalloc.{Kmem, kalloc, kfree}
use test_ascii.Kalloc.Owners.{Reach, booted, later, freed, kalloc_lem}

abbrev at_boot : Kmem
at_boot = record { freelist = 0; next = λ _. 0 }

abbrev one_page : Kmem
one_page = record { freelist = 0x80109000; next = update (λ _. 0) 0x80109000 0 }

Reach-one_page : Reach 0x80108000 (omega arith) one_page (update (λ _. true) 0x80109000 false)
unfolding kfree
Reach-one_page = later (booted (λ _. 0)) (freed at_boot one_page (λ _. true) 0x80109000 refl refl)

kalloc_lem_example :
    (((kalloc one_page).0 ≡ 0) × ((a : ℕ) → update (λ _. true) 0x80109000 false a ≡ true))
    ⊎ (((kalloc one_page).0 ≢ 0)
        × (update (λ _. true) 0x80109000 false (kalloc one_page).0 ≡ false))
kalloc_lem_example = kalloc_lem 0x80108000 (omega arith) Reach-one_page
