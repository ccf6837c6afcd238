-- ===== src/Kernel/System.antt =====
-- What src/eag/kernel/kernel.py and src/eag/plugins/manager.py call outside themselves: the
-- handlers of the event bus and the plugins' own `load` and `unload`. Each call may raise and may
-- answer otherwise the next time; none of them calls the manager or the kernel or sets a state.
use eag.Prelude.{Option, String}

pub data PluginPolicy : Type 0 where
  required : PluginPolicy
  optional : PluginPolicy

pub data PluginState : Type 0 where
  created : PluginState
  loading : PluginState
  loaded : PluginState
  unloading : PluginState
  unloaded : PluginState
  failed : PluginState

pub data PluginRuntimeStatus : Type 0 where
  registered : PluginRuntimeStatus
  loaded : PluginRuntimeStatus
  unavailable : PluginRuntimeStatus
  failed : PluginRuntimeStatus

pub data KernelState : Type 0 where
  created : KernelState
  booting : KernelState
  ready : KernelState
  shutting_down : KernelState
  stopped : KernelState
  failed : KernelState
  ready_degraded : KernelState

pub data Event : Type 0 where
  plugin_registered : (plugin_name plugin_version : String) → Event
  plugin_load_started : (plugin_name : String) → Event
  plugin_load_completed : (plugin_name : String) → Event
  plugin_load_failed : (plugin_name error_type error_message : String) → Event
  plugin_unload_started : (plugin_name : String) → Event
  plugin_unload_completed : (plugin_name : String) → Event
  plugin_unload_failed : (plugin_name error_type error_message : String) → Event
  kernel_boot_started : (previous_state : KernelState) → Event
  kernel_boot_completed : (state : KernelState) → Event
  kernel_shutdown_started : (previous_state : KernelState) → Event
  kernel_shutdown_completed : (state : KernelState) → Event

-- An exception, by its type's name and its text.
pub record Exception : Type 0 where
  pub error_type : String
  pub error_message : String

pub data Call : Type 0 where
  publish : Event → Call
  load_plugin : (name : String) → Call
  unload_plugin : (name : String) → Call

pub record System : Type 1 where
  pub World : Type 0
  pub call : Call → World → Option Exception × World
