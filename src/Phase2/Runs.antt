-- ===== src/Phase2/Runs.antt =====
-- All definitions of phase 2, to be unfolded together where a run is computed.
use elissa_x_priscilla_colla.Phase2.Waiters.{
  enqueue, already_blocked, shift, dequeue, wakeup, wakeup_consumer, wakeup_producer, unblock_all,
}
use elissa_x_priscilla_colla.Phase2.Slots.{
  fill, push_slot, pop_slot, filled, deposit, free_slot, read_out,
}
use elissa_x_priscilla_colla.Phase2.Lifecycle.{
  bad_shape, find_inactive, set_up, mbox_create, release_consumers, drop_queue, mbox_release,
  init_syscall_table, reset, phase2_init,
}
use elissa_x_priscilla_colla.Phase2.Transfer.{
  bad_message, notify, set_producer, set_consumer, clear_consumer, block_direct, send_direct,
  queue_producer, wait_for_room, send_slotted, mbox_send, take_message, recv_direct, recv_ready,
  recv_slotted, mbox_recv, mbox_cond_send, mbox_cond_recv,
}
use elissa_x_priscilla_colla.Phase2.Device.{
  syscall_handler, nullsys_run, interrupt_handler, int_bytes, clock_interrupt_handler, wait_device,
}

unfoldable pub runs : Unit {0}
unfolding enqueue already_blocked shift dequeue wakeup wakeup_consumer wakeup_producer unblock_all
    fill push_slot pop_slot filled deposit free_slot read_out bad_shape find_inactive set_up
    mbox_create release_consumers drop_queue mbox_release init_syscall_table reset phase2_init
    bad_message notify set_producer set_consumer clear_consumer block_direct send_direct
    queue_producer wait_for_room send_slotted mbox_send take_message recv_direct recv_ready
    recv_slotted mbox_recv mbox_cond_send mbox_cond_recv syscall_handler nullsys_run
    interrupt_handler int_bytes clock_interrupt_handler wait_device
runs = tt
