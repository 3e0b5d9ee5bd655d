-- ===== src/Lib.antt =====
-- WTO, the workload template operator: a model of its admission webhook and its reconcilers, with
-- the theorems that make them correct.
--
-- The program. A WorkloadProfile gives the pods of a workload their resources, device claims and
-- placement. The profile controller resolves it, by itself or with a WorkloadProfileTemplate, into
-- status.resolvedSpec, keeps one ResourceClaimTemplate for each device claim, and decides the
-- condition Valid. The webhook changes a pod that names a profile by the resolved spec and puts a
-- scheduling gate on it, or denies it. The placement controller holds a gated pod until the quotas
-- of its namespace have room, then applies the placement and takes the gate off. A profile that is
-- being deleted is held back while a gated pod names it. A WorkloadTypeConfig names a kind of
-- workload: the workload type controller registers a watch of the kind with the propagation
-- controller, which copies the name of the profile from a workload to its pod template. The defaults
-- are the configurations that the operator creates at its start.
--
-- The files, and the code that they are about:
--   Api, Api/*                api/v1alpha1: the specs, statuses and constants, and the fields of
--                             the Kubernetes types that the code reads or writes
--   Api/Validation            the rules of validation that the types of a profile carry
--   Quantity                  the operations of resource.Quantity, a parameter
--   Client                    the API server's client and the event recorder, parameters
--   Client/Server             the laws of the server while nobody else writes
--   Webhook/Names             internal/webhook/pod_webhook.go: the constants
--   Webhook/Inject            resolveResources, injectResources, injectDRAClaims
--   Webhook/Handle            isKueueManaged, checkBlockingConflicts, addSchedulingGate,
--                             setCostLabels, setTrackingAnnotations, Handle
--   Placement/Quota           internal/controller/placement_controller.go: checkQuota,
--                             checkResourceQuota, resolveProfileResources
--   Placement/Gates           hasSchedulingGate, removeSchedulingGate, applyNodePlacement
--   Placement/Reconcile       Reconcile, and the event filter of SetupWithManager
--   Profile/Conditions        internal/controller/profile_controller.go: setCondition,
--                             removeCondition
--   Profile/Resolve           resolveSpec
--   Profile/Status            updateStatus
--   Profile/Nodes             countSatisfiableNodes, nodeSatisfiesProfile, countAppliedWorkloads
--   Profile/TargetKind        validateTargetKind
--   Profile/Deletion          handleDeletion, findGatedPodsForProfile
--   Profile/Reconcile         Reconcile, ensureResourceClaimTemplate
--   Profile/Requeue           findProfilesForTemplate, and the index of SetupWithManager
--   Propagation/Registry      internal/controller/propagation_controller.go: RegisterGVK,
--                             DeregisterGVK
--   Propagation/Annotate      propagateViaPodTemplatePath, propagateViaAnnotationPath
--   Propagation/Reconcile     Reconcile, and the handler and the filter of a watch
--   TypeConfig/Conditions     internal/controller/workloadtype_controller.go: setWTCCondition
--   TypeConfig/Reconcile      Reconcile, checkCRDExists
--   Defaults                  internal/defaults/workloadtypes.go: EnsureDefaults
--   Manager                   cmd/main.go: main, with each controller's SetupWithManager and
--                             NewPropagationReconciler
--   Testutil, Testutil/*      internal/testutil/testutil.go: the builders of pods, profiles,
--                             templates and type configurations
--   Lifecycle, Lifecycle/*    the profile controller, the webhook and the placement controller
--                             together
--   Common, Common/*          lists, maps, integers and texts that the parts share
--   Tests, Tests/*            concrete inputs, tests on them, and the theorems applied to them
-- The modules below a part's file hold the proofs about it.
--
-- How the code is represented. A Go map is the list of its entries in the order in which a range
-- visits them, and nil is the empty list; a theorem says so where it needs that no key stands
-- twice. A pointer that may be nil is an Option. A loop is a recursion on the list that it ranges
-- over. Code that mutates a pod or a profile returns the new one, and a deep copy is the value
-- itself. The state of the cluster is a parameter `W`: the client's reads take it, and its writes
-- and the recorder's events return the next one, so the writes of a reconcile are the sequence of
-- states that it passes. A read gives a value, NotFound, or another error. A panic of the webhook
-- is `none`, or the response `panicked`. A text of fmt.Sprintf, which no code reads, stays unprinted
-- as its format and its arguments; the names, keys and annotations that code does read are real
-- texts. The clock is read from the state, so all conditions of one reconcile without a write in
-- between carry one time. A generation is a natural number. The counts of nodes and pods are
-- int32s that wrap. The two maps of the propagation controller are one value, since its lock
-- serialises their use. Container indices are integers, which may be negative.
--
-- What is a parameter: the decoder and the JSON encoder of the webhook, the client, the recorder,
-- the functions of controllerutil, the matching of a label selector, the quantities, the access to
-- unstructured objects, controller.Watch, discovery, the embedded files with their decoder, the
-- manager and the builder of controllers. The laws that are assumed of them stand as records, which
-- a theorem takes where it needs them:
--   Quantity.IsExact                   Cmp and Sub are the order and the difference of the numbers
--                                      that the quantities stand for
--   Client/Server.IsServer             what the server has after a write, apart from what the cache
--                                      of the client shows, while nobody else writes: an update of
--                                      a profile that is not being deleted changes the finalizers;
--                                      a status patch is a JSON merge patch, which replaces a list
--                                      as a whole and gives the new resolved spec where the server
--                                      has that of the base, and leaves the claim templates alone;
--                                      CreateOrUpdate leaves the object there
--   Client/Server.IsPodServer          for pods: a patch is read back, and neither one that is
--                                      refused nor an event changes a pod
--   Profile/Requeue/Coverage.IsIndex   a list by an index has the objects with the value
--   Propagation/Annotate/Idempotent.IsStore, Propagation/Reconcile/Converges.IsTree
--                                      a map that was set at a path is found there, and the maps at
--                                      paths that part ways from it are as before
-- and in the theorem itself where it speaks of the writes that keep a property.
-- A read of the client is a read of its cache. IsServer tells the cache from the server and assumes
-- nothing of how soon the cache shows a write: a read through it is a condition of a theorem, or
-- stands in what the theorem states. IsPodServer does not tell them apart: there a read gives what was
-- patched last.
-- Common/Text.show_nat prints a number with the number as its fuel, which is enough since each
-- digit but the last divides the number by ten.
--
-- Retries are a list of what others do to the cluster before each reconcile of a request, so they
-- need no fuel; the theorems on them hold for every such list.
--
-- Not modelled: the patterns and lengths of the texts of a WorkloadTypeConfig, the registration of
-- the types in a scheme, the generated deep copies, the fake client and recorder of the tests, which
-- are a library's, logging, and the functions that the source has commented out.
mod Common
pub mod Api
pub mod Quantity
pub mod Client
pub mod Webhook
pub mod Placement
pub mod Profile
pub mod Propagation
pub mod TypeConfig
pub mod Defaults
pub mod Manager
pub mod Testutil
pub mod Lifecycle
mod Tests
