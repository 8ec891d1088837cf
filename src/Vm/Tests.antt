-- ===== src/Vm/Tests.antt =====
-- mappages in an empty directory, and deallocuvm of the one page that is mapped.
use cs_577_p.Base.{◌*◌, ◌≡◌, refl, arith, Bool, ok}
use cs_577_p.Spinlock.{Cpu}
use cs_577_p.Kalloc.{Kmem, pgsize}
use cs_577_p.Vm.{entry, mappages}
use cs_577_p.Vm.Samples.{calm_cpu, two_pages, two_pages-IsDir, mapped_page, mapped_page-IsSpace}
use cs_577_p.Vm.Space.{deallocuvm}
use cs_577_p.Vm.Dealloc.{Shrunk, deallocuvm_lem}
use cs_577_p.Spinlock.Laws.{IsNested}
use cs_577_p.Vm.Rounds.{Mapped}
use cs_577_p.Vm.Loop.{mappages_lem}

mappages_lem_example :
    (r : Bool) × (k' : Kmem) × (c' : Cpu) × (mappages 0x200000 4096 8192
        (5 * pgsize)
        6
        two_pages
        calm_cpu
      ≡ ok (r, k', c'))
    × Mapped two_pages 0x200000 1 1 5 6 r k' c'
unfolding entry
mappages_lem_example =
    mappages_lem 0x200000 4096 8192 5 6 two_pages calm_cpu (omega arith) (omega arith) (omega arith)
      (omega arith) (λ h. absurd (omega arith)) two_pages-IsDir (λ i h. refl)

deallocuvm_lem_example :
    (k' : Kmem) × (c' : Cpu) × (deallocuvm 0x200000 8192 4096 mapped_page calm_cpu
      ≡ ok (4096, k', c'))
    × IsNested c'
    × Shrunk mapped_page 0x200000 1 8192 k'
deallocuvm_lem_example =
    deallocuvm_lem 0x200000 8192 4096 mapped_page calm_cpu (omega arith) (omega arith)
      (λ h. absurd (omega arith)) mapped_page-IsSpace
